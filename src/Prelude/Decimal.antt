-- ===== src/Prelude/Decimal.antt =====
-- The verb %d of Go's fmt on a number that is not negative.
use Prim.Native.Nat.{ℕ, zero, suc, ◌+◌, ◌-◌, ◌*◌, ◌/◌, ◌%◌, ◌≤◌, ◌<◌}
use Prim.Native.Char.{code}
use Prim.Native.String.{String, ◌++◌}
use mathlib.Core.Path.{◌≡◌, refl, ap, ◌∙◌, sym}
use mathlib.Core.Logic.{inl, inr}
use native.Mathlib.Omega.{arith}
use text.Mathlib.TextLemmas.{nil-append, cons-append}
use agent_control_plane.Prelude.Tests.{if◌then◌else◌, ltb, Bool-cases}

abbrev pub digit : ℕ → String
digit zero = "0"
digit (suc zero) = "1"
digit (suc (suc zero)) = "2"
digit (suc (suc (suc zero))) = "3"
digit (suc (suc (suc (suc zero)))) = "4"
digit (suc (suc (suc (suc (suc zero))))) = "5"
digit (suc (suc (suc (suc (suc (suc zero)))))) = "6"
digit (suc (suc (suc (suc (suc (suc (suc zero))))))) = "7"
digit (suc (suc (suc (suc (suc (suc (suc (suc zero)))))))) = "8"
digit _ = "9"

-- The digits of a number, by as many rounds as are left.
unfoldable pub digits : ℕ → ℕ → String
digits zero n = ""
digits (suc rounds) n =
    let before = digits rounds (n / 10) in if ltb n 10 then digit n else before ++ digit (n % 10)

-- Each round divides by ten, so as many rounds as the number and one more are enough.
unfoldable pub decimal : ℕ → String
unfolding digits
decimal n = digits (suc n) n

-- What the digits of a text spell behind `n`.
unfoldable pub spelled : ℕ → String → ℕ
spelled n String.[] = n
spelled n (String.◌∷◌ c s) = spelled (n * 10 + (code c - 48)) s

spelled-append : (n : ℕ) (s t : String) → spelled n (s ++ t) ≡ spelled (spelled n s) t
unfolding spelled
spelled-append n String.[] t = rw (nil-append t) refl
spelled-append n (String.◌∷◌ c s) t =
    rw (cons-append c s t) (spelled-append (n * 10 + (code c - 48)) s t)

spelled-digit : (n d : ℕ) → d < 10 → spelled n (digit d) ≡ n * 10 + d
unfolding spelled
spelled-digit n zero h = omega arith
spelled-digit n (suc zero) h = omega arith
spelled-digit n (suc (suc zero)) h = omega arith
spelled-digit n (suc (suc (suc zero))) h = omega arith
spelled-digit n (suc (suc (suc (suc zero)))) h = omega arith
spelled-digit n (suc (suc (suc (suc (suc zero))))) h = omega arith
spelled-digit n (suc (suc (suc (suc (suc (suc zero)))))) h = omega arith
spelled-digit n (suc (suc (suc (suc (suc (suc (suc zero))))))) h = omega arith
spelled-digit n (suc (suc (suc (suc (suc (suc (suc (suc zero)))))))) h = omega arith
spelled-digit n (suc (suc (suc (suc (suc (suc (suc (suc (suc zero))))))))) h = omega arith
spelled-digit n (suc (suc (suc (suc (suc (suc (suc (suc (suc (suc m)))))))))) h =
    absurd (omega (arith, h))

spelled-digits : (rounds n : ℕ) → n < rounds → spelled 0 (digits rounds n) ≡ n
unfolding digits
spelled-digits zero n h = absurd (omega (arith, h))
spelled-digits (suc rounds) n h = elim (Bool-cases (ltb n 10)) [
  | inl t ↦ rw t (spelled-digit 0 n (ground arith) ∙ omega arith)
  | inr f ↦
      let more : 10 ≤ n = ground arith in
      rw
        (
          f,
          spelled-append 0 (digits rounds (n / 10)) (digit (n % 10)),
          spelled-digits rounds (n / 10) (omega (arith, h, more)),
          spelled-digit (n / 10) (n % 10) (omega arith),
        )
        (omega arith)
]

-- A number is read back from its digits.
pub spelled-decimal : (n : ℕ) → spelled 0 (decimal n) ≡ n
unfolding decimal
spelled-decimal n = spelled-digits (suc n) n (omega arith)

-- Numbers that are printed alike are the same.
pub decimal_inj : (m n : ℕ) → decimal m ≡ decimal n → m ≡ n
decimal_inj m n h = sym (spelled-decimal m) ∙ ap (spelled 0) h ∙ spelled-decimal n
