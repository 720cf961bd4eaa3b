-- ===== src/Api/Anchors/Verify.antt =====
-- verifyAnchor of acpd/internal/api/anchor.go says "verified" where every anchor is.
use agent_control_plane.Prelude.{
  String, ◌≡◌, ◌≢◌, refl, ap, Bool, true, false, some, List, [], ◌∷◌, map, All, ◌↔◌, inl, inr,
  Bool-cases, if◌then◌else◌,
}
use agent_control_plane.Json.{Json, Codec}
use agent_control_plane.Schema.{Anchor, Receipt, Tables}
use agent_control_plane.Receipts.{get_receipts}
use agent_control_plane.Anchors.{list_anchors}
use agent_control_plane.Api.Anchors.{
  Bridge, Verified, answer_ok, receipt_maps, check_anchor, verify_loop, verify_from, verify_anchor,
}

module _ (c : Codec) (br : Bridge) (id : String) where
  loop-proofs :
      (receipts : List Json) (all_ok : Bool) (anchors : List Anchor)
      → (verify_loop c br id receipts all_ok anchors).proofs
        ≡ map (check_anchor c br id receipts) anchors
  unfolding verify_loop
  loop-proofs receipts all_ok [] = refl
  loop-proofs receipts all_ok (a ∷ rest) =
      ap (λ l. check_anchor c br id receipts a ∷ l)
        (loop-proofs receipts
          (if answer_ok (check_anchor c br id receipts a).answer then all_ok else false) rest)

  loop-ok :
      (receipts : List Json) (all_ok : Bool) (anchors : List Anchor)
      → ((verify_loop c br id receipts all_ok anchors).is_ok ≡ true) ↔ (
          (all_ok ≡ true)
          × All (λ a. answer_ok (check_anchor c br id receipts a).answer ≡ true) anchors)
  unfolding verify_loop
  loop-ok receipts all_ok [] = ((λ h. (h, tt)), (λ h. h.0))
  loop-ok receipts all_ok (a ∷ rest) =
      elim (Bool-cases (answer_ok (check_anchor c br id receipts a).answer)) [
        | inl t ↦ rw t (
          (λ h. let k = (loop-ok receipts all_ok rest).0 h in (k.0, (refl, k.1))),
          (λ h. (loop-ok receipts all_ok rest).1 (h.0, h.1.1)),
        )
        | inr f ↦ rw f (
          (λ h. absurd (let k = (loop-ok receipts false rest).0 h in cc (k.0))),
          (λ h. absurd (cc (h.1.0))),
        )
      ]

  -- One entry for each anchor, and `ok` exactly if every proof is accepted.
  abbrev pub Verifies : List Json → List Anchor → Verified → Type 0
  Verifies receipts anchors v =
      (v.proofs ≡ map (check_anchor c br id receipts) anchors)
      × ((v.is_ok ≡ true)
          ↔ All (λ a. answer_ok (check_anchor c br id receipts a).answer ≡ true) anchors)

  loop-Verifies :
      (receipts : List Json) (anchors : List Anchor)
      → Verifies receipts anchors (verify_loop c br id receipts true anchors)
  loop-Verifies receipts anchors = (
    loop-proofs receipts true anchors,
    (
      (λ h. ((loop-ok receipts true anchors).0 h).1),
      (λ h. (loop-ok receipts true anchors).1 (refl, h)),
    ),
  )

  from-Verifies :
      (anchors : List Anchor) (receipts : List Receipt)
      → anchors ≢ []
      → (v : Verified) × ((verify_from c br id anchors receipts
            ≡ record { code = 200; value = some v })
          × Verifies (receipt_maps c receipts) anchors v)
  from-Verifies [] receipts h = absurd (h refl)
  from-Verifies (a ∷ rest) receipts h = (
    verify_loop c br id (receipt_maps c receipts) true (a ∷ rest),
    (refl, loop-Verifies (receipt_maps c receipts) (a ∷ rest)),
  )

  -- verifyAnchor with the method GET, for a workflow with anchors, replies 200 with one entry for each anchor,
  -- in the order of the log, and says verified exactly if the bridge's program has accepted the proof of every
  -- one of them against the receipts of the workflow.
  pub verify_anchor-Verifies :
      (db : Tables)
      → list_anchors id db ≢ []
      → (v : Verified) × ((verify_anchor c br id "GET" db ≡ record { code = 200; value = some v })
          × Verifies (receipt_maps c (get_receipts id db)) (list_anchors id db) v)
  unfolding verify_anchor
  verify_anchor-Verifies db h = from-Verifies (list_anchors id db) (get_receipts id db) h
