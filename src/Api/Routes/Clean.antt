-- ===== src/Api/Routes/Clean.antt =====
-- The paths that net/http's cleanPath leaves as they are, part by part.
use Prim.Native.String.{◌++◌}
use text.Mathlib.TextLemmas.{nil-append, cons-append, append_assoc}
use agent_control_plane.Prelude.{
  String, ◌≡◌, ◌≢◌, refl, sym, ap, ◌∙◌, Bool, true, false, not, ◌&&◌, has_slash, is_slash,
  slash-append, arith,
}
use agent_control_plane.Api.Routes.{Part, blank, next_part, is_plain, is_clean_from, is_clean}

-- What a part is when it ends.
unfoldable pub part_of : Part → String → Part
part_of part String.[] = part
part_of part (String.◌∷◌ c s) = part_of (next_part part c) s

-- One part of a path: not empty, without a slash, and neither "." nor "..".
unfoldable pub is_name : String → Bool
unfolding part_of has_slash
is_name s = not (has_slash s) && is_plain (part_of blank s)

clean-part :
    (part : Part) (s t : String)
    → has_slash s ≡ false
    → is_plain (part_of part s) ≡ true
    → is_clean_from part (s ++ "/" ++ t) ≡ is_clean_from blank t
unfolding has_slash part_of is_clean_from
clean-part part String.[] t h p = rw (nil-append ("/" ++ t), slash-append t, p) refl
clean-part part (String.◌∷◌ c s) t h p =
    let f : is_slash c ≡ false = ground arith in
    let rest : has_slash s ≡ false = ground arith in
    rw (cons-append c s ("/" ++ t), f) (clean-part (next_part part c) s t rest p)

module _ (s : String) (n : is_name s ≡ true) where
  pub is_name-has_slash : has_slash s ≡ false
  unfolding is_name
  is_name-has_slash = ground (arith, n)

  pub is_name-ne : s ≢ ""
  unfolding is_name has_slash part_of
  is_name-ne e = absurd (let k : is_name "" ≡ true = sym (ap is_name e) ∙ n in cc k)

  pub clean-name : (t : String) → is_clean_from blank (s ++ "/" ++ t) ≡ is_clean_from blank t
  unfolding is_name
  clean-name t = clean-part blank s t is_name-has_slash (ground (arith, n))

pub clean-path : (t : String) → is_clean ("/" ++ t) ≡ is_clean_from blank t
unfolding is_clean
clean-path t = rw (slash-append t) refl

-- The path of a gate's resumption.
pub clean-resume_path :
    (id token : String)
    → is_name id ≡ true
    → is_name token ≡ true
    → is_clean ("/workflows/" ++ id ++ "/" ++ "gates/" ++ token ++ "/resume") ≡ true
unfolding is_name part_of has_slash is_clean_from
clean-resume_path id token n t =
    let named = clean-name token t "resume" in
    ap is_clean (append_assoc "/" "workflows/" (id ++ "/" ++ "gates/" ++ token ++ "/resume"))
    ∙ clean-path ("workflows/" ++ id ++ "/" ++ "gates/" ++ token ++ "/resume")
    ∙ ap (is_clean_from blank)
        (append_assoc "workflows" "/" (id ++ "/" ++ "gates/" ++ token ++ "/resume"))
    ∙ clean-name "workflows" workflows (id ++ "/" ++ "gates/" ++ token ++ "/resume")
    ∙ clean-name id n ("gates/" ++ token ++ "/resume")
    ∙ ap (is_clean_from blank) (append_assoc "gates" "/" (token ++ "/resume"))
    ∙ clean-name "gates" gates (token ++ "/resume")
    ∙ ap (λ s. is_clean_from blank (token ++ s)) last
    ∙ named
    ∙ resume
  where
    last : "/resume" ≡ "/" ++ "resume"
    last = refl

    workflows : is_name "workflows" ≡ true
    workflows = refl

    gates : is_name "gates" ≡ true
    gates = refl

    resume : is_clean_from blank "resume" ≡ true
    resume = refl
