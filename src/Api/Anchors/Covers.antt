-- ===== src/Api/Anchors/Covers.antt =====
-- anchorWorkflow of acpd/internal/api/anchor.go adds an anchor or changes nothing, and by default it leaves no
-- gap.
use agent_control_plane.Prelude.{
  ℕ, ◌<◌, String, ◌≡◌, refl, sym, ap, ◌∙◌, true, false, List, [], ◌∷◌, ◌++◌, ◌⊎◌, inl, inr,
  Bool-cases, any, any-append, ◌&&◌, eq_refl, arith, ◌==◌,
}
use agent_control_plane.Sql.{Result, ok, err, unique_violation}
use agent_control_plane.Json.{Codec}
use agent_control_plane.Schema.{Anchor, Receipt, Tables}
use agent_control_plane.Receipts.{get_receipts}
use agent_control_plane.Anchors.{create_anchor, get_anchor_gaps}
use agent_control_plane.Anchors.Coverage.{covers, anchored, gaps-Separated}
use agent_control_plane.Anchors.Summary.{AllAnchored, some_gap}
use agent_control_plane.Anchors.Backend.{ExternalRef, submit, default_backend}
use agent_control_plane.Actors.{Actor}
use agent_control_plane.Api.{Reply, error_reply}
use agent_control_plane.Api.Anchors.{
  AnchorRequest, Payload, Proof, Bridge, receipt_maps, last_seq, or_seq, with_range, anchor_row,
  anchor_reply, anchor_proved, anchor_submitted, anchor_bridged, anchor_from, anchor_workflow,
}

module _ (c : Codec) (br : Bridge) (uuid at : String) (now : ℕ) (id : String) (actor : Actor) where
  -- The anchor that a request has added, for the range of the request or, where it gives none, from 1 to the
  -- last receipt.
  pub record IsAnchored (req : AnchorRequest) (db db' : Tables) : Type 0 where
    pub first : Receipt
    pub rest : List Receipt
    pub receipts : get_receipts id db ≡ first ∷ rest
    pub row : Anchor
    pub own : row.workflow_id ≡ id
    pub from : row.seq_from ≡ (with_range (last_seq first rest) req).seq_from
    pub to : row.seq_to ≡ (with_range (last_seq first rest) req).seq_to
    pub fresh : any (λ (b : Anchor). b.proof_id == uuid) db.anchors ≡ false
    pub rows : db' ≡ record db { anchors = db.anchors ++ row ∷ [] }

  abbrev pub AnchorsOrKeeps : AnchorRequest → Tables → Reply × Tables → Type 0
  AnchorsOrKeeps req db m =
      ((m.0.code ≡ 200) × IsAnchored req db m.1) ⊎ ((200 < m.0.code) × (m.1 ≡ db))

  module _ (asked : AnchorRequest) (db : Tables) (first : Receipt) (rest : List Receipt)
      (receipts : get_receipts id db ≡ first ∷ rest) where
    abbrev req : AnchorRequest
    req = with_range (last_seq first rest) asked

    proved-cases :
        (payload : Payload) (ref : ExternalRef) (o : Result Proof)
        → AnchorsOrKeeps asked db (anchor_proved c br uuid at now id actor req payload ref o db)
    unfolding error_reply
    proved-cases payload ref (err e) = inr (omega arith, refl)
    proved-cases payload ref (ok proof) =
        let row = anchor_row c uuid id req payload ref proof actor now in
        let key : row.proof_id ≡ uuid = unfold anchor_row in refl in
        elim (Bool-cases (any (λ (b : Anchor). b.proof_id == uuid) db.anchors)) [
          | inl t ↦
              let e : create_anchor row db ≡ (err unique_violation, db) =
                unfold create_anchor anchor_row in rw t in
              rw e (inr (omega arith, refl))
          | inr f ↦
              let e : create_anchor row db
                  ≡ (ok tt, record db { anchors = db.anchors ++ row ∷ [] }) =
                unfold create_anchor anchor_row in rw f in
              rw e (
                inl (
                  unfold anchor_reply in refl,
                  record {
                    first = first;
                    rest = rest;
                    receipts = receipts;
                    row = row;
                    own = unfold anchor_row in refl;
                    from = unfold anchor_row in refl;
                    to = unfold anchor_row in refl;
                    fresh = f;
                    rows = refl;
                  },
                ))
        ]

    submitted-cases :
        (payload : Payload) (o : Result ExternalRef)
        → AnchorsOrKeeps asked db (anchor_submitted c br uuid at now id actor req payload o db)
    unfolding error_reply
    submitted-cases payload (err e) = inr (omega arith, refl)
    submitted-cases payload (ok ref) =
        proved-cases payload ref (br.anchor_proof payload.payload_json ref actor.actor_id)

    payload-cases :
        (o : Result Payload)
        → AnchorsOrKeeps asked db (anchor_bridged c br uuid at now id actor req o db)
    unfolding error_reply
    payload-cases (err e) = inr (omega arith, refl)
    payload-cases (ok payload) =
        submitted-cases payload
          (submit c at default_backend payload.payload_digest id req.seq_from req.seq_to)

  from-cases :
      (asked : AnchorRequest) (db : Tables) (receipts : List Receipt)
      → get_receipts id db ≡ receipts
      → AnchorsOrKeeps asked db (anchor_from c br uuid at now id actor asked receipts db)
  unfolding error_reply
  from-cases asked db [] h = inr (omega arith, refl)
  from-cases asked db (r ∷ rest) h =
      let req = with_range (last_seq r rest) asked in
      payload-cases asked db r rest h (
        br.anchor_payload id req.seq_from req.seq_to (receipt_maps c (r ∷ rest)) req.policy_version)

  -- anchorWorkflow replies 200 exactly where it adds an anchor of the workflow of the path, which has receipts:
  -- the anchor's range is the one of the request, whose missing ends are 1 and the last receipt's number.
  -- Every other reply is an error and changes nothing.
  pub anchor_workflow-cases :
      (method : String) (asked : AnchorRequest) (db : Tables)
      → AnchorsOrKeeps asked db (anchor_workflow c br uuid at now id actor method asked db)
  unfolding anchor_workflow error_reply
  anchor_workflow-cases method asked db = elim (Bool-cases (method == "POST")) [
    | inr n ↦ rw n (inr (omega arith, refl))
    | inl y ↦ rw y (from-cases asked db (get_receipts id db) refl)
  ]

  covered_after :
      (a : Anchor) (db : Tables) (q : ℕ)
      → a.workflow_id ≡ id
      → covers q a ≡ true
      → anchored id q (record db { anchors = db.anchors ++ a ∷ [] }) ≡ true
  covered_after a db q own k =
      any-append (λ (b : Anchor). b.workflow_id == id && covers q b) db.anchors (a ∷ [])
      ∙ (let t : (a.workflow_id == id) ≡ true = rw own (eq_refl id) in ground arith)

  abbrev last_of : List Receipt → ℕ
  last_of [] = 0
  last_of (r ∷ rest) = last_seq r rest

  whole_range :
      (asked : AnchorRequest) (last : ℕ)
      → asked.seq_from ≡ 0
      → asked.seq_to ≡ 0
      → ((with_range last asked).seq_from ≡ 1) × ((with_range last asked).seq_to ≡ last)
  unfolding with_range
  whole_range asked last zf zt = (ap (λ n. or_seq n 1) zf, ap (λ n. or_seq n last) zt)

  default-AllAnchored :
      (asked : AnchorRequest) (db db' : Tables) (first : Receipt) (rest : List Receipt)
      → asked.seq_from ≡ 0
      → asked.seq_to ≡ 0
      → get_receipts id db ≡ first ∷ rest
      → IsAnchored asked db db'
      → AllAnchored id (last_seq first rest) db'
  default-AllAnchored asked db db' first rest zf zt r k q lo hi =
      let last : last_seq k.first k.rest ≡ last_seq first rest = ap last_of (sym k.receipts ∙ r) in
      let range = whole_range asked (last_seq k.first k.rest) zf zt in
      let from : k.row.seq_from ≡ 1 = k.from ∙ range.0 in
      let to : k.row.seq_to ≡ last_seq first rest = k.to ∙ range.1 ∙ last in
      let inside : covers q k.row ≡ true = ground (arith, from, to, lo, hi) in
      ap (anchored id q) k.rows ∙ covered_after k.row db q k.own inside

  -- After a request without a range that replied 200, the anchors of the workflow leave no gap up to the number
  -- of its last receipt.
  pub anchor_workflow-no_gaps :
      (method : String) (asked : AnchorRequest) (db : Tables) (first : Receipt)
      (rest : List Receipt)
      → asked.seq_from ≡ 0
      → asked.seq_to ≡ 0
      → get_receipts id db ≡ first ∷ rest
      → (anchor_workflow c br uuid at now id actor method asked db).0.code ≡ 200
      → get_anchor_gaps id
          (last_seq first rest)
          (anchor_workflow c br uuid at now id actor method asked db).1
        ≡ []
  anchor_workflow-no_gaps method asked db first rest zf zt r h =
      let db' = (anchor_workflow c br uuid at now id actor method asked db).1 in
      elim (anchor_workflow-cases method asked db) [
        | inr (bad, _) ↦ absurd (omega (arith, bad, h))
        | inl (_, k) ↦
            some_gap id (last_seq first rest) db' (get_anchor_gaps id (last_seq first rest) db')
              refl (gaps-Separated id (last_seq first rest) db')
              (default-AllAnchored asked db db' first rest zf zt r k)
      ]
