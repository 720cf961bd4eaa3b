-- ===== src/Api/Forks/Outcome.antt =====
-- forkWorkflow of acpd/internal/api/branches.go creates a fork or changes nothing.
use agent_control_plane.Prelude.{
  ℕ, ℤ, pos, negsuc, ◌<◌, ◌≤◌, String, ◌≡◌, refl, ap, true, false, Option, none, some, ◌⊎◌, inl,
  inr, Bool-cases, Option-cases, arith, ltb, ◌==◌,
}
use Prim.Native.String.{len}
use agent_control_plane.Sql.{Error, Result, ok, err}
use agent_control_plane.Json.{Json, null, bool, int, str, arr, obj, Members, end, Codec}
use agent_control_plane.Schema.{WorkflowSnapshot, Tables}
use agent_control_plane.Workflows.{get_latest_snapshot}
use agent_control_plane.Branches.Fork.{ForkResult, fork_result}
use agent_control_plane.Branches.Fork.Outcome.{ForksFrom, CannotFork, commit_fork-outcome}
use agent_control_plane.Api.{Call, Reply, error_reply}
use agent_control_plane.Api.Forks.{
  ForkRequest, Forking, Bridge, decode_fork, with_defaults, branch_point, fork_hash, fork_params,
  fork_reply, fork_at, fork_answered, fork_parsed, fork_latest, post_fork,
}

-- The members of a document that is decoded into a map: `null` leaves the map nil.
abbrev object_of : Option Json → Option Members
object_of (some (obj state)) = some state
object_of (some null) = some end
object_of _ = none

module _ (c : Codec) (br : Bridge) (id : String) (req : ForkRequest) (db : Tables) where
  -- What the handler asks the bridge's program: the latest state of the parent, with the branch point of the
  -- request or, where it has none, of that state.
  pub record Asked (answer : Result Forking) : Type 0 where
    pub snap : WorkflowSnapshot
    pub document : Json
    pub state : Members
    pub latest : get_latest_snapshot id db ≡ some snap
    pub document_of : c.unmarshal snap.state_json ≡ some document
    pub members : object_of (some document) ≡ some state
    pub answered : br.fork document req.new_workflow_id (branch_point req state) req.reason ≡ answer

  -- Why a fork of the request is refused.
  pub data Refuses : Type 0 where
    no_state : get_latest_snapshot id db ≡ none → Refuses
    no_object :
        (snap : WorkflowSnapshot)
        → get_latest_snapshot id db ≡ some snap
        → object_of (c.unmarshal snap.state_json) ≡ none
        → Refuses
    no_answer : (e : Error) → Asked (err e) → Refuses
    not_ok : (b : Forking) → Asked (ok b) → b.is_ok ≡ false → Refuses
    no_text : (b : Forking) → Asked (ok b) → len b.state_json < 5 → Refuses
    negative :
        (b : Forking) (asked : Asked (ok b)) (n : ℕ)
        → branch_point req asked.state ≡ negsuc n
        → Refuses
    cannot_fork :
        (b : Forking) (asked : Asked (ok b)) (seq : ℕ)
        → branch_point req asked.state ≡ pos seq
        → CannotFork (fork_params id req seq) db
        → Refuses

  -- The fork of a request: the state is what the program answered, at the branch point.
  pub record HasForked (now : ℕ) (db' : Tables) : Type 0 where
    pub seq : ℕ
    pub result : Forking
    pub asked : Asked (ok result)
    pub point : branch_point req asked.state ≡ pos seq
    pub accepted : result.is_ok ≡ true
    pub text : 5 ≤ len result.state_json
    pub forked : ForkResult
    pub from :
        ForksFrom
          (fork_params id req seq)
          result.state_json
          (fork_hash req (pos seq) result)
          now
          db
          (ok forked, db')

  abbrev pub ForksOrKeeps : ℕ → Reply × Tables → Type 0
  ForksOrKeeps now m =
      ((m.0.code ≡ 200) × HasForked now m.1) ⊎ (Refuses × ((200 < m.0.code) × (m.1 ≡ db)))

module _ (c : Codec) (br : Bridge) (uuid : String) (now : ℕ) (id : String) where
  module _ (req : ForkRequest) (db : Tables) where
    module _ (b : Forking) (asked : Asked c br id req db (ok b)) (t : b.is_ok ≡ true)
        (l : 5 ≤ len b.state_json) where
      fork_at-cases :
          (seq : ℤ)
          → branch_point req asked.state ≡ seq
          → ForksOrKeeps c br id req db now (fork_at c br uuid now id req b seq db)
      unfolding error_reply fork_reply
      fork_at-cases (negsuc n) e = inr (negative b asked n e, (omega arith, refl))
      fork_at-cases (pos seq) point =
          elim (commit_fork-outcome (fork_params id req seq) b.state_json
            (fork_hash req (pos seq) b) now db) [
              | inl f ↦ rw f.forks (
                  inl (
                    refl,
                    record {
                      seq = seq;
                      result = b;
                      asked = asked;
                      point = point;
                      accepted = t;
                      text = l;
                      forked = fork_result (fork_params id req seq) f.snap;
                      from = record {
                        snap = f.snap;
                        parent = f.parent;
                        point = f.point;
                        origin = f.origin;
                        free = f.free;
                        forks = refl;
                      };
                    },
                  ))
              | inr (n, (e, k)) ↦ rw k (inr (cannot_fork b asked seq point n, (omega arith, refl)))
            ]

    fork_answered-cases :
        (o : Result Forking) (asked : Asked c br id req db o)
        → ForksOrKeeps c br id req db now
            (fork_answered c br uuid now id req (branch_point req asked.state) o db)
    unfolding error_reply
    fork_answered-cases (err e) asked = inr (no_answer e asked, (omega arith, refl))
    fork_answered-cases (ok b) asked = elim (Bool-cases b.is_ok) [
      | inr f ↦ simp f (inr (not_ok b asked f, (omega arith, refl)))
      | inl t ↦ elim (Bool-cases (ltb (len b.state_json) 5)) [
        | inl y ↦ simp (t, y) (inr (no_text b asked (ground arith), (omega arith, refl)))
        | inr n ↦
            simp (t, n) (fork_at-cases b asked t (ground arith) (branch_point req asked.state) refl)
      ]
    ]

    module _ (snap : WorkflowSnapshot) (latest : get_latest_snapshot id db ≡ some snap) where
      fork_parsed-cases :
          (o : Option Json)
          → c.unmarshal snap.state_json ≡ o
          → ForksOrKeeps c br id req db now (fork_parsed c br uuid now id req o db)
      unfolding error_reply
      fork_parsed-cases (some null) p =
          fork_answered-cases (br.fork null req.new_workflow_id (branch_point req end) req.reason)
            (record {
              snap = snap;
              document = null;
              state = end;
              latest = latest;
              document_of = p;
              members = refl;
              answered = refl;
            })
      fork_parsed-cases (some (obj state)) p =
          fork_answered-cases
            (br.fork (obj state) req.new_workflow_id (branch_point req state) req.reason)
            (record {
              snap = snap;
              document = obj state;
              state = state;
              latest = latest;
              document_of = p;
              members = refl;
              answered = refl;
            })
      fork_parsed-cases none p = inr (no_object snap latest (ap object_of p), (omega arith, refl))
      fork_parsed-cases (some (bool b)) p =
          inr (no_object snap latest (ap object_of p), (omega arith, refl))
      fork_parsed-cases (some (int n)) p =
          inr (no_object snap latest (ap object_of p), (omega arith, refl))
      fork_parsed-cases (some (str s)) p =
          inr (no_object snap latest (ap object_of p), (omega arith, refl))
      fork_parsed-cases (some (arr js)) p =
          inr (no_object snap latest (ap object_of p), (omega arith, refl))

    fork_latest-cases :
        (o : Option WorkflowSnapshot)
        → get_latest_snapshot id db ≡ o
        → ForksOrKeeps c br id req db now (fork_latest c br uuid now id req o db)
    unfolding error_reply
    fork_latest-cases none l = inr (no_state l, (omega arith, refl))
    fork_latest-cases (some snap) l = fork_parsed-cases snap l (c.unmarshal snap.state_json) refl

  -- forkWorkflow, for a POST whose body decodes, replies 200 exactly where the bridge's program, asked with the
  -- latest state of the workflow of the path, the branch point and the defaults, answers ok with a text of at
  -- least five bytes and CommitFork can fork at that point; then the fork has the program's state. In every
  -- other case it replies an error, for one of the reasons that `Refuses` lists, and changes nothing. So it
  -- does for another method or body.
  pub post_fork-cases :
      (call : Call) (db : Tables)
      → ((req : ForkRequest) × ((decode_fork call.body ≡ some req)
            × ForksOrKeeps c br id
                (with_defaults uuid req)
                db
                now
                (post_fork c br uuid now id call db)))
        ⊎ ((((call.method == "POST") ≡ false) ⊎ (decode_fork call.body ≡ none))
            × ((400 ≤ (post_fork c br uuid now id call db).0.code)
                × ((post_fork c br uuid now id call db).1 ≡ db)))
  unfolding post_fork error_reply
  post_fork-cases call db = elim (Bool-cases (call.method == "POST")) [
    | inr n ↦ rw n (inr (inl refl, (omega arith, refl)))
    | inl y ↦ elim (Option-cases (decode_fork call.body)) [
      | inl n ↦ rw (y, n) (inr (inr refl, (omega arith, refl)))
      | inr (req, d) ↦ inl (
        req,
        (
          d,
          rw (y, d)
              (fork_latest-cases (with_defaults uuid req) db (get_latest_snapshot id db) refl),
        ),
      )
    ]
  ]
