-- ===== src/Json.antt =====
-- The JSON values that encoding/json decodes documents to, and the functions of Go's libraries that
-- acpd/internal/store calls on texts and bytes.
pub mod Lookup
use Prim.Native.String.{◌++◌}
use agent_control_plane.Prelude.{
  ℤ, String, Option, none, some, List, [], ◌∷◌, Bool, ◌==◌, if◌then◌else◌,
}

-- The value behind an `any`. Numbers are integers: encoding/json decodes a number into a float64, which is
-- exact for the sequence numbers and the counters that the programs write. An object lists its members in the order of their insertion.
mutual
  pub data Json : Type 0 where
    null : Json
    bool : Bool → Json
    int : ℤ → Json
    str : String → Json
    arr : Items → Json
    obj : Members → Json

  pub data Items : Type 0 where
    nil : Items
    cons : Json → Items → Items

  pub data Members : Type 0 where
    end : Members
    member : String → Json → Members → Members

-- m[key], where a missing key is told from one that is there
unfoldable pub get_member : String → Members → Option Json
get_member key end = none
get_member key (member k v rest) = if k == key then some v else get_member key rest

-- m[key] = value: the first member of that name is overwritten, and a new one comes last.
unfoldable pub set_member : String → Json → Members → Members
set_member key v end = member key v end
set_member key v (member k w rest) =
    if k == key then member key v rest else member k w (set_member key v rest)

-- delete(m, key)
unfoldable pub delete_member : String → Members → Members
delete_member key end = end
delete_member key (member k v rest) =
    let rest' = delete_member key rest in if k == key then rest' else member k v rest'

-- v.(string), v.(map[string]any), v.([]any)
abbrev pub as_string : Option Json → Option String
as_string (some (str s)) = some s
as_string _ = none

abbrev pub as_object : Option Json → Option Members
as_object (some (obj ms)) = some ms
as_object _ = none

abbrev pub as_array : Option Json → Option Items
as_array (some (arr xs)) = some xs
as_array _ = none

abbrev pub strings : List String → Items
strings [] = nil
strings (s ∷ ss) = cons (str s) (strings ss)

-- encoding/json and crypto/sha256 as the store calls them: json.Marshal, json.Unmarshal (`none` where it
-- returns an error) and the hash of a text's bytes as lower-case hexadecimal digits.
pub record Codec : Type 0 where
  pub marshal : Json → String
  pub unmarshal : String → Option Json
  pub sha256_hex : String → String

-- hashBytes, HashAPIKey: fmt.Sprintf("sha256:%x", sha256.Sum256(b))
unfoldable pub hash_bytes : Codec → String → String
hash_bytes c text = "sha256:" ++ c.sha256_hex text

-- Unmarshal into a map, then m[key].(string): `none` if any of it fails. A document `null` leaves the
-- map nil, which has no member.
unfoldable pub string_member : Codec → String → String → Option String
string_member c key text = elim (as_object (c.unmarshal text)) [
  | none ↦ none
  | some ms ↦ as_string (get_member key ms)
]
