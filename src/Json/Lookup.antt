-- ===== src/Json/Lookup.antt =====
-- The members of an object after one is set.
use agent_control_plane.Prelude.{
  String, ◌≡◌, sym, subst, false, some, inl, inr, Bool-cases, eq_refl, eq_iff, arith, ◌==◌,
}
use agent_control_plane.Json.{Json, Members, end, member, get_member, set_member}

pub get-set_same :
    (key : String) (v : Json) (ms : Members) → get_member key (set_member key v ms) ≡ some v
unfolding get_member set_member
get-set_same key v end = rw (eq_refl key)
get-set_same key v (member k w rest) = elim (Bool-cases (k == key)) [
  | inl t ↦ rw (t, eq_refl key)
  | inr f ↦ rw (f, f) (get-set_same key v rest)
]

pub get-set_other :
    (key other : String) (v : Json) (ms : Members)
    → (key == other) ≡ false
    → get_member other (set_member key v ms) ≡ get_member other ms
unfolding get_member set_member
get-set_other key other v end ne = rw ne
get-set_other key other v (member k w rest) ne = elim (Bool-cases (k == key)) [
  | inl t ↦
      let e : (k == other) ≡ false =
        subst (λ x. (x == other) ≡ false) (sym ((eq_iff k key).0 t)) ne in
      rw (t, ne, e)
  | inr f ↦ rw f (ground (arith, get-set_other key other v rest ne))
]
