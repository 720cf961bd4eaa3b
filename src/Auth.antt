-- ===== src/Auth.antt =====
-- acpd/internal/auth: the middleware that finds the actor of a request.
use Prim.Native.String.{len, slice}
use agent_control_plane.Prelude.{
  ℕ, String, ◌≡◌, ap, false, Option, none, some, inl, inr, Memᴰ, find, find-mem, eq_iff, Bool-cases,
  Option-cases, ◌==◌, if◌then◌else◌,
}
use agent_control_plane.Json.{Codec}
use agent_control_plane.Schema.{ActorRow, Tables}
use agent_control_plane.Keys.{Mac, KeyProvider, hash_api_key}
use agent_control_plane.Actors.{Actor, has_hash, scan_actor, scanned_actor, resolve_api_key}

-- The path of the request's URL and its header Authorization, "" where there is none.
pub record Request : Type 0 where
  pub path : String
  pub authorization : String

-- What the middleware does: the handler runs with or without an actor, or the reply is an error.
pub data Admission : Type 0 where
  public : Admission
  admitted : Actor → Admission
  refused : (code : ℕ) (message : String) → Admission

-- strings.HasPrefix and strings.TrimPrefix with "Bearer "
unfoldable pub extract_key : String → String
extract_key header = if slice header 0 7 == "Bearer " then slice header 7 (len header) else ""

module _ (c : Codec) (m : Mac) (keys : Option KeyProvider) where
  abbrev admission : Option Actor → Admission
  admission none = refused 401 "invalid API key"
  admission (some a) = admitted a

  unfoldable pub middleware : Request → Tables → Admission
  unfolding extract_key
  middleware r db =
      if r.path == "/health"
      then public
      else if extract_key r.authorization == ""
      then refused 401 "missing Authorization header"
      else admission (resolve_api_key c m keys (extract_key r.authorization) db)

  -- The actor whose stored hash is that of the presented key.
  pub record Presents (r : Request) (db : Tables) (a : Actor) : Type 0 where
    pub row : ActorRow
    pub mem : Memᴰ row db.actors
    pub hash : row.api_key_hash ≡ hash_api_key m c keys (extract_key r.authorization)
    pub read : a ≡ scan_actor c m keys row
    pub bearer : (extract_key r.authorization == "") ≡ false

  resolved-row :
      (api_key : String) (db : Tables) (a : Actor)
      → resolve_api_key c m keys api_key db ≡ some a
      → (row : ActorRow) × (Memᴰ row db.actors
          × ((row.api_key_hash ≡ hash_api_key m c keys api_key) × (a ≡ scan_actor c m keys row)))
  unfolding resolve_api_key
  resolved-row api_key db a h =
      let hash = hash_api_key m c keys api_key in
      elim (Option-cases (find (has_hash hash) db.actors)) [
        | inl n ↦ absurd (
            let e : resolve_api_key c m keys api_key db ≡ none = ap (scanned_actor c m keys) n in
            cc (h, e))
        | inr (row, e) ↦
            let f = find-mem (has_hash hash) db.actors row e in
            let k : resolve_api_key c m keys api_key db ≡ some (scan_actor c m keys row) =
              ap (scanned_actor c m keys) e in
            (row, (f.0, ((eq_iff row.api_key_hash hash).0 f.1, cc (h, k))))
      ]

  -- A request is handled with an actor only if its header is "Bearer " and a key that is not empty and
  -- whose hash a row of the actors has; the actor is then that row's.
  pub middleware-Presents :
      (r : Request) (db : Tables) (a : Actor) → middleware r db ≡ admitted a → Presents r db a
  unfolding middleware
  middleware-Presents r db a h = elim (Bool-cases (r.path == "/health")) [
    | inl t ↦ absurd (let e : middleware r db ≡ public = rw t in cc (h, e))
    | inr f ↦ elim (Bool-cases (extract_key r.authorization == "")) [
      | inl t ↦ absurd (
          let e : middleware r db ≡ refused 401 "missing Authorization header" = rw (f, t) in
          cc (h, e))
      | inr g ↦
          let e : middleware r db
              ≡ admission (resolve_api_key c m keys (extract_key r.authorization) db) =
            rw (f, g) in
          elim (Option-cases (resolve_api_key c m keys (extract_key r.authorization) db)) [
            | inl n ↦
                absurd (
                  let e' : middleware r db ≡ refused 401 "invalid API key" = cc (e, n) in
                  cc (h, e'))
            | inr (a', k) ↦
                let same : a' ≡ a = cc (h, e, k) in
                let row = resolved-row (extract_key r.authorization) db a (cc (k, same)) in
                record {
                  row = row.0;
                  mem = row.1.0;
                  hash = row.1.1.0;
                  read = row.1.1.1;
                  bearer = g;
                }
          ]
    ]
  ]
