-- ===== src/Prelude/Texts.antt =====
-- The functions of Go's package strings that the server cuts texts with.
use Prim.Native.Char.{Char, code}
use Prim.Native.String.{String, ◌++◌, len, slice}
use Prim.Native.String.len
use mathlib.Core.Path.{◌≡◌, refl, ap, ◌∙◌, sym}
use mathlib.Core.Logic.{◌≢◌, inl, inr}
use mathlib.Core.Bool.{Bool, true, false, ◌&&◌, ◌||◌}
use mathlib.Core.Option.{Option, none, some}
use native.Mathlib.Omega.{arith}
use text.Mathlib.Text.{◌==◌, starts_with}
use text.Mathlib.TextLemmas.{nil-append, cons-append, append_assoc}
use text.Mathlib.TextPositions.{
  starts_with-append, slice-append_right, len-append, len_utf8-pos, eq_refl,
}
use agent_control_plane.Prelude.Tests.{
  if◌then◌else◌, nat_eq, Bool-cases, test_of_ne, eq_of_test, Option-cases,
}

-- strings.TrimPrefix
abbrev pub trim_prefix : String → String → String
trim_prefix text prefix =
    if starts_with text prefix then slice text (len prefix) (len text) else text

abbrev pub cons_some : Char → Option String → Option String
cons_some c none = none
cons_some c (some s) = some (String.◌∷◌ c s)

-- The text in front of a suffix, if the text ends in it.
unfoldable pub before_suffix : (text suffix : String) → Option String
before_suffix String.[] suffix = if "" == suffix then some "" else none
before_suffix (String.◌∷◌ c s) suffix =
    let rest = cons_some c (before_suffix s suffix) in
    if String.◌∷◌ c s == suffix then some "" else rest

abbrev pub is_some : Option String → Bool
is_some none = false
is_some (some s) = true

abbrev pub or_text : String → Option String → String
or_text s none = s
or_text s (some t) = t

-- strings.HasSuffix
unfoldable pub has_suffix : (text suffix : String) → Bool
unfolding before_suffix
has_suffix text suffix = is_some (before_suffix text suffix)

-- strings.TrimSuffix
unfoldable pub trim_suffix : (text suffix : String) → String
unfolding before_suffix
trim_suffix text suffix = or_text text (before_suffix text suffix)

pub trim_prefix-append : (s t : String) → trim_prefix (s ++ t) s ≡ t
trim_prefix-append s t = rw (starts_with-append s t, len-append s t) (slice-append_right s t)

longer : (c : Char) (s t : String) → String.◌∷◌ c (s ++ t) ≢ t
longer c s t e = omega (arith, ap len e, len.cons c (s ++ t), len-append s t, (len_utf8-pos c).1)

before_suffix_all : (t : String) → before_suffix t t ≡ some ""
unfolding before_suffix
before_suffix_all String.[] = refl
before_suffix_all (String.◌∷◌ c s) = rw (eq_refl (String.◌∷◌ c s)) refl

pub before_suffix-append : (s t : String) → before_suffix (s ++ t) t ≡ some s
unfolding before_suffix
before_suffix-append String.[] t = rw (nil-append t) (before_suffix_all t)
before_suffix-append (String.◌∷◌ c s) t =
    rw
      (
        cons-append c s t,
        test_of_ne (String.◌∷◌ c (s ++ t)) t (longer c s t),
        before_suffix-append s t,
      )
      refl

pub has_suffix-append : (s t : String) → has_suffix (s ++ t) t ≡ true
unfolding has_suffix
has_suffix-append s t = ap is_some (before_suffix-append s t)

pub trim_suffix-append : (s t : String) → trim_suffix (s ++ t) t ≡ s
unfolding trim_suffix
trim_suffix-append s t = ap (or_text (s ++ t)) (before_suffix-append s t)

whole_suffix :
    (text t u : String)
    → (text == t) ≡ true
    → ◌≡◌ {A = Option String} (some "") (some u)
    → text ≡ u ++ t
whole_suffix text t u y h =
    let e : ◌≡◌ {A = String} "" u = cc h in
    eq_of_test text t y ∙ sym (nil-append t) ∙ ap (λ v. v ++ t) e

pub before_suffix_lem : (text t u : String) → before_suffix text t ≡ some u → text ≡ u ++ t
unfolding before_suffix
before_suffix_lem String.[] t u h = elim (Bool-cases ("" == t)) [
  | inl y ↦ let k : before_suffix "" t ≡ some "" = rw y refl in whole_suffix "" t u y (sym k ∙ h)
  | inr n ↦ absurd (let k : before_suffix "" t ≡ none = rw n refl in cc (h, k))
]
before_suffix_lem (String.◌∷◌ c s) t u h = elim (Bool-cases (String.◌∷◌ c s == t)) [
  | inl y ↦
      let k : before_suffix (String.◌∷◌ c s) t ≡ some "" = rw y refl in
      whole_suffix (String.◌∷◌ c s) t u y (sym k ∙ h)
  | inr n ↦
      let k : before_suffix (String.◌∷◌ c s) t ≡ cons_some c (before_suffix s t) = rw n refl in
      elim (Option-cases (before_suffix s t)) [
        | inl o ↦ absurd (cc (h, k, ap (cons_some c) o))
        | inr (v, o) ↦
            let e : String.◌∷◌ c v ≡ u = cc (h, k, ap (cons_some c) o) in
            ap (String.◌∷◌ c) (before_suffix_lem s t v o)
            ∙ sym (cons-append c v t)
            ∙ ap (λ w. w ++ t) e
      ]
]

abbrev pub is_slash : Char → Bool
is_slash c = nat_eq (code c) 47

abbrev pub is_empty : String → Bool
is_empty String.[] = true
is_empty (String.◌∷◌ c s) = false

-- strings.Trim with "/": the slashes in front, and those at the end
unfoldable pub trim_left : String → String
trim_left String.[] = ""
trim_left (String.◌∷◌ c s) = let rest = trim_left s in if is_slash c then rest else String.◌∷◌ c s

unfoldable pub trim_right : String → String
trim_right String.[] = ""
trim_right (String.◌∷◌ c s) =
    let rest = trim_right s in if is_slash c && is_empty rest then "" else String.◌∷◌ c rest

unfoldable pub trim : String → String
unfolding trim_left trim_right
trim s = trim_right (trim_left s)

-- strings.SplitN with "/" and 2: what is before the first slash, and what is behind it, if there is one
unfoldable pub cut : String → String × Option String
cut String.[] = ("", none)
cut (String.◌∷◌ c s) =
    let rest = cut s in if is_slash c then ("", some s) else (String.◌∷◌ c rest.0, rest.1)

unfoldable pub has_slash : String → Bool
has_slash String.[] = false
has_slash (String.◌∷◌ c s) = is_slash c || has_slash s

abbrev pub slash : Char
slash = "/"

pub slash-append : (t : String) → "/" ++ t ≡ String.◌∷◌ slash t
slash-append t = cons-append slash String.[] t ∙ ap (String.◌∷◌ slash) (nil-append t)

-- The part in front of the first slash, and the part behind it.
pub cut-append : (s t : String) → has_slash s ≡ false → cut (s ++ "/" ++ t) ≡ (s, some t)
unfolding cut has_slash
cut-append String.[] t h = ap cut (nil-append ("/" ++ t) ∙ slash-append t)
cut-append (String.◌∷◌ c s) t h =
    let f : is_slash c ≡ false = ground arith in
    let rest : has_slash s ≡ false = ground arith in
    rw (cons-append c s ("/" ++ t), f, cut-append s t rest) refl

is_empty-append : (s t : String) → t ≢ "" → is_empty (s ++ t) ≡ false
is_empty-append String.[] String.[] ne = absurd (ne refl)
is_empty-append String.[] (String.◌∷◌ d t) ne = rw (nil-append (String.◌∷◌ d t)) refl
is_empty-append (String.◌∷◌ c s) t ne = rw (cons-append c s t) refl

pub trim_right-append : (s t : String) → trim_right t ≡ t → t ≢ "" → trim_right (s ++ t) ≡ s ++ t
unfolding trim_right
trim_right-append String.[] t h ne = rw (nil-append t) h
trim_right-append (String.◌∷◌ c s) t h ne =
    rw (cons-append c s t, trim_right-append s t h ne, is_empty-append s t ne) (ground arith)

trim_left-append : (s t : String) → s ≢ "" → has_slash s ≡ false → trim_left (s ++ t) ≡ s ++ t
unfolding trim_left has_slash
trim_left-append String.[] t ne h = absurd (ne refl)
trim_left-append (String.◌∷◌ c s) t ne h =
    let f : is_slash c ≡ false = ground arith in rw (cons-append c s t, f) refl

-- A text that begins with a part without a slash and ends without one is not trimmed.
pub trim-append :
    (s t : String)
    → s ≢ ""
    → has_slash s ≡ false
    → trim_right t ≡ t
    → t ≢ ""
    → trim (s ++ "/" ++ t) ≡ s ++ "/" ++ t
unfolding trim
trim-append s t ne h r nt =
    rw (trim_left-append s ("/" ++ t) ne h, ← append_assoc s "/" t)
      (trim_right-append (s ++ "/") t r nt)
