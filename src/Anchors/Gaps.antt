-- ===== src/Anchors/Gaps.antt =====
-- The loop that finds the gaps: they hold the unmarked numbers, and are as few as can be.
use agent_control_plane.Prelude.{
  ℕ, zero, suc, ◌+◌, ◌-◌, ◌≤◌, ◌<◌, ◌≡◌, refl, Bool, true, false, Option, none, some, List, [], ◌∷◌,
  leb, ltb, nat_eq, any, ◌&&◌, ◌||◌, not, arith, Bool-cases, inl, inr, ◌∙◌, ap,
}
use agent_control_plane.Anchors.{Marks, is_marked, Gap, opened, closed, gap_loop}

abbrev pub in_gap : ℕ → Gap → Bool
in_gap q g = leb g.from q && leb q g.to

abbrev begun : ℕ → ℕ → Option ℕ → Bool
begun q seq none = false
begun q seq (some start) = leb start q && ltb q seq

abbrev pub StartFits : ℕ → Option ℕ → Type 0
StartFits seq none = Unit
StartFits seq (some start) = start < seq

opened_fits :
    (seq : ℕ) (start : Option ℕ) → StartFits seq start → StartFits (seq + 1) (opened seq start)
opened_fits seq none f = omega arith
opened_fits seq (some start) f = omega arith

-- A number that is not marked lies behind `seq`, or is `seq` where that is not marked.
abbrev rest : Marks → ℕ → ℕ → ℕ → Bool
rest marks max_seq q seq = leb seq q && leb q max_seq && not (is_marked marks q)

module _ (marks : Marks) (max_seq q seq : ℕ) (fits : seq ≤ max_seq) where
  rest_marked :
      is_marked marks seq ≡ true → rest marks max_seq q (seq + 1) ≡ rest marks max_seq q seq
  rest_marked y = elim (Bool-cases (nat_eq q seq)) [
    | inl t ↦ let e : q ≡ seq = ground arith in rw e (ground arith)
    | inr f ↦ ground arith
  ]

  rest_open :
      (start : Option ℕ)
      → StartFits seq start
      → is_marked marks seq ≡ false
      → (begun q (seq + 1) (opened seq start) || rest marks max_seq q (seq + 1))
        ≡ (begun q seq start || rest marks max_seq q seq)
  rest_open none h n = elim (Bool-cases (nat_eq q seq)) [
    | inl t ↦ let e : q ≡ seq = ground arith in rw e (ground arith)
    | inr f ↦ ground arith
  ]
  rest_open (some start) h n = elim (Bool-cases (nat_eq q seq)) [
    | inl t ↦ let e : q ≡ seq = ground arith in rw e (ground arith)
    | inr f ↦ ground arith
  ]

  any-closed :
      (start : Option ℕ) (gaps : List Gap)
      → (0 < seq)
      → any (in_gap q) (closed seq start gaps) ≡ (begun q seq start || any (in_gap q) gaps)
  any-closed none gaps h = refl
  any-closed (some start) gaps h = ground arith

module _ (marks : Marks) (max_seq q : ℕ) where
  -- The gaps from `seq` on hold the numbers of the gap that is open, and the unmarked numbers.
  pub gap_loop-any :
      (rounds seq : ℕ) (start : Option ℕ)
      → seq + rounds ≡ suc max_seq
      → 0 < seq
      → StartFits seq start
      → any (in_gap q) (gap_loop marks max_seq rounds seq start)
        ≡ (begun q seq start || rest marks max_seq q seq)
  unfolding gap_loop
  gap_loop-any zero seq none e h f = ground arith
  gap_loop-any zero seq (some start) e h f = ground arith
  gap_loop-any (suc rounds) seq start e h f = elim (Bool-cases (is_marked marks seq)) [
    | inl y ↦
        rw (y, gap_loop)
          (any-closed marks max_seq q seq (omega arith) start _ h
            ∙ ap (λ b. begun q seq start || b)
                (gap_loop-any rounds (seq + 1) none (omega arith) (omega arith) tt
                  ∙ rest_marked marks max_seq q seq (omega arith) y))
    | inr n ↦
        rw (n, gap_loop)
          (gap_loop-any rounds (seq + 1) (opened seq start) (omega arith) (omega arith)
              (opened_fits seq start f)
            ∙ rest_open marks max_seq q seq (omega arith) start f n)
  ]

-- Each gap is a range that ends by `max_seq`, begins by `lo` at the earliest, and is separated from the
-- next gap by a number that is in none.
abbrev pub Separated : ℕ → ℕ → List Gap → Type 0
Separated max_seq lo [] = Unit
Separated max_seq lo (g ∷ gs) =
    (lo ≤ g.from) × (g.from ≤ g.to) × (g.to ≤ max_seq) × Separated max_seq (g.to + 2) gs

abbrev lower : ℕ → Option ℕ → ℕ
lower seq none = seq
lower seq (some start) = start

Separated-le :
    (max_seq lo lo' : ℕ) (gs : List Gap)
    → lo' ≤ lo
    → Separated max_seq lo gs
    → Separated max_seq lo' gs
Separated-le max_seq lo lo' [] h s = tt
Separated-le max_seq lo lo' (g ∷ gs) h s = (omega arith, s.1, s.2, s.3)

module _ (marks : Marks) (max_seq : ℕ) where
  closed-Separated :
      (seq : ℕ) (start : Option ℕ) (gs : List Gap)
      → seq ≤ max_seq
      → StartFits seq start
      → Separated max_seq (seq + 1) gs
      → Separated max_seq (lower seq start) (closed seq start gs)
  closed-Separated seq none gs f h s = Separated-le max_seq (seq + 1) seq gs (omega arith) s
  closed-Separated seq (some start) gs f h s = (
    omega arith,
    omega arith,
    omega arith,
    Separated-le max_seq (seq + 1) (seq - 1 + 2) gs (omega arith) s,
  )

  -- Neighbouring unmarked numbers are in one gap.
  pub gap_loop-Separated :
      (rounds seq : ℕ) (start : Option ℕ)
      → seq + rounds ≡ suc max_seq
      → StartFits seq start
      → Separated max_seq (lower seq start) (gap_loop marks max_seq rounds seq start)
  unfolding gap_loop
  gap_loop-Separated zero seq none e h = tt
  gap_loop-Separated zero seq (some start) e h = (omega arith, omega arith, omega arith, tt)
  gap_loop-Separated (suc rounds) seq none e h = elim (Bool-cases (is_marked marks seq)) [
    | inl y ↦
        rw (y, gap_loop)
          (closed-Separated seq none _ (omega arith) h
            (gap_loop-Separated rounds (seq + 1) none (omega arith) tt))
    | inr n ↦
        rw (n, gap_loop)
          (gap_loop-Separated rounds (seq + 1) (some seq) (omega arith) (omega arith))
  ]
  gap_loop-Separated (suc rounds) seq (some start) e h = elim (Bool-cases (is_marked marks seq)) [
    | inl y ↦
        rw (y, gap_loop)
          (closed-Separated seq (some start) _ (omega arith) h
            (gap_loop-Separated rounds (seq + 1) none (omega arith) tt))
    | inr n ↦
        rw (n, gap_loop)
          (gap_loop-Separated rounds (seq + 1) (some start) (omega arith) (omega arith))
  ]
