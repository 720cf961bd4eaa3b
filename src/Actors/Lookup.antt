-- ===== src/Actors/Lookup.antt =====
-- The actor that acpd/internal/store/actors.go finds by an API key.
use agent_control_plane.Prelude.{
  ℕ, String, ◌≡◌, refl, sym, ap, ◌∙◌, true, false, Option, none, some, List, [], ◌∷◌, ◌++◌, any,
  find, eq_refl, eq_iff, arith, Bool-cases, inl, inr, ◌==◌,
}
use agent_control_plane.Sql.{ok, err, unique_violation}
use agent_control_plane.Json.{null, strings, Codec}
use agent_control_plane.Schema.{ActorRow, Tables}
use agent_control_plane.Tasks.{zero_time, parse_time}
use agent_control_plane.Keys.{Mac, KeyProvider, hash_api_key}
use agent_control_plane.Actors.{
  Actor, slice_json, item_strings, decode_strings, null_bytes, actor_row, clashes_with,
  create_actor, has_hash, scan_actor, scanned_actor, resolve_api_key,
}

-- What the store relies on of encoding/json: null and a slice of strings are read back as they were
-- written.
pub record ReadsBack (c : Codec) (s : Option (List String)) : Type 0 where
  pub null_text : c.marshal null ≡ "null"
  pub null_back : c.unmarshal (c.marshal null) ≡ some null
  pub back : c.unmarshal (c.marshal (slice_json s)) ≡ some (slice_json s)

item_strings-strings : (ss : List String) → item_strings (strings ss) ≡ ss
unfolding item_strings
item_strings-strings [] = refl
item_strings-strings (s ∷ ss) = ap (λ l. s ∷ l) (item_strings-strings ss)

decode-slice : (s : Option (List String)) → decode_strings (some (slice_json s)) ≡ s
unfolding decode_strings
decode-slice none = refl
decode-slice (some ss) = ap some (item_strings-strings ss)

find-append_hash :
    (h : String) (rs : List ActorRow) (r : ActorRow)
    → any (λ (s : ActorRow). s.api_key_hash == h) rs ≡ false
    → (r.api_key_hash == h) ≡ true
    → find (λ (s : ActorRow). s.api_key_hash == h) (rs ++ r ∷ []) ≡ some r
find-append_hash h [] r n t = rw t
find-append_hash h (s ∷ rs) r n t = ground (arith, find-append_hash h rs r)

no_hash :
    (new : ActorRow) (rs : List ActorRow)
    → any (clashes_with new) rs ≡ false
    → any (λ (s : ActorRow). s.api_key_hash == new.api_key_hash) rs ≡ false
no_hash new [] h = refl
no_hash new (r ∷ rs) h = ground (arith, no_hash new rs)

module _ (c : Codec) (m : Mac) (keys : Option KeyProvider) where
  -- The actor that is read back: the columns of the times have another layout than they are parsed by.
  abbrev pub resolved : Actor → String → Actor
  resolved a api_key = record a {
    api_key_hash = hash_api_key m c keys api_key;
    created_at = zero_time;
    updated_at = zero_time;
  }

  null_bytes-slice :
      (s : Option (List String))
      → ReadsBack c s
      → (elim (null_bytes (c.marshal (slice_json s))) [
        | none ↦ none
        | some text ↦ decode_strings (c.unmarshal text)
      ])
        ≡ s
  unfolding null_bytes
  null_bytes-slice none k = rw k.null_text
  null_bytes-slice (some ss) k = elim (Bool-cases (c.marshal (slice_json (some ss)) == "null")) [
    | inl t ↦ absurd (
        let text : c.marshal (slice_json (some ss)) ≡ "null" = (eq_iff _ _).0 t in
        let e : some (slice_json (some ss)) ≡ some null =
          sym (k.back) ∙ ap c.unmarshal (text ∙ sym k.null_text) ∙ k.null_back in
        cc e)
    | inr f ↦ rw (f, k.back) (decode-slice (some ss))
  ]

  scan_actor-row :
      (now : ℕ) (a : Actor) (api_key : String)
      → ReadsBack c a.roles
      → ReadsBack c a.allowed_agents
      → ReadsBack c a.allowed_workflows
      → scan_actor c m keys (actor_row c m keys now a api_key) ≡ resolved a api_key
  unfolding scan_actor actor_row parse_time
  scan_actor-row now a api_key kr ka kw = rw (
    kr.back,
    decode-slice a.roles,
    null_bytes-slice a.allowed_agents ka,
    null_bytes-slice a.allowed_workflows kw,
  )

  resolve_api_key-found :
      (api_key : String) (db : Tables) (row : ActorRow)
      → find (has_hash (hash_api_key m c keys api_key)) db.actors ≡ some row
      → resolve_api_key c m keys api_key db ≡ some (scan_actor c m keys row)
  unfolding resolve_api_key
  resolve_api_key-found api_key db row h = ap (scanned_actor c m keys) h

  -- An actor that is created is the one that its API key resolves to, with its roles and restrictions,
  -- if encoding/json reads these back, and with the zero time for both times.
  resolve_api_key-created :
      (now : ℕ) (a : Actor) (api_key : String) (db db' : Tables)
      → ReadsBack c a.roles
      → ReadsBack c a.allowed_agents
      → ReadsBack c a.allowed_workflows
      → create_actor c m keys now a api_key db ≡ (ok tt, db')
      → resolve_api_key c m keys api_key db' ≡ some (resolved a api_key)
  unfolding create_actor resolve_api_key
  resolve_api_key-created now a api_key db db' kr ka kw h =
      let row = actor_row c m keys now a api_key in
      elim (Bool-cases (any (clashes_with row) db.actors)) [
        | inl t ↦ absurd (
            let e : create_actor c m keys now a api_key db ≡ (err unique_violation, db) = rw t in
            cc (h, e))
        | inr f ↦
            let e : create_actor c m keys now a api_key db
                ≡ (ok tt, record db { actors = db.actors ++ row ∷ [] }) =
              rw f in
            let same : db' ≡ record db { actors = db.actors ++ row ∷ [] } = cc (h, e) in
            let found : find (has_hash (hash_api_key m c keys api_key)) (db.actors ++ row ∷ [])
                ≡ some row =
              unfold actor_row in
              find-append_hash (hash_api_key m c keys api_key) db.actors row
                (no_hash row db.actors f) (eq_refl (hash_api_key m c keys api_key)) in
            rw same (
              resolve_api_key-found api_key (record db { actors = db.actors ++ row ∷ [] }) row found
              ∙ ap some (scan_actor-row now a api_key kr ka kw))
      ]
