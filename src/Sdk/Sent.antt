-- ===== src/Sdk/Sent.antt =====
-- The requests that the client sends, in their order.
use agent_control_plane.Prelude.{
  String, ◌≡◌, refl, sym, ap, ◌∙◌, List, [], ◌∷◌, ◌++◌, Option, none, some,
}
use agent_control_plane.Json.{Json}
use agent_control_plane.Sdk.{
  Http, Request, Response, Answer, done, failed, wrap_answer, continue, send, read_reply,
  record_answer, Session,
}
use mathlib.Core.List.{append-nil, append_assoc}

-- The same server, with the list of the requests that it was sent.
abbrev pub logging : {S : Type 0} → Http S → Http (S × List Request)
logging http r (s, log) = record_answer (log ++ r ∷ []) (http r s)

module _ {S : Type 0} where
  -- Of the requests `all`, a beginning has been sent behind `log`, and all of them where there is an answer.
  unfoldable pub IsSent :
      {A : Type 0} → Answer A × (S × List Request) → (log all : List Request) → Type 0
  IsSent {A} x log all =
      (rest : List Request) × ((x.1.1 ++ rest ≡ log ++ all) × ((a : A) → x.0 ≡ done a → rest ≡ []))

module _ {S A : Type 0} (log : List Request) where
  pub pure-IsSent : (a : A) (s : S) → IsSent (Answer.done a, (s, log)) log []
  unfolding IsSent
  pure-IsSent a s = ([], (refl, λ b e. refl))

  pub wrap-IsSent :
      (message : String) (x : Answer A × (S × List Request)) (all : List Request)
      → IsSent x log all
      → IsSent (wrap_answer message x) log all
  unfolding IsSent
  wrap-IsSent message (done a, s) all h = h
  wrap-IsSent message (failed e, s) all (rest, (q, h)) = (rest, (q, λ a p. absurd (cc p)))

  read-sent :
      (decode : Json → Option A) (sent : List Request) (x : Option Response × S)
      → (read_reply decode (record_answer sent x)).1.1 ≡ sent
  read-sent decode sent (none, s) = refl
  read-sent decode sent (some y, s) = refl

  -- One request is sent, whatever the reply.
  pub send-sent :
      (http : Http S) (decode : Json → Option A) (r : Request) (s : S)
      → (send (logging http) decode r (s, log)).1.1 ≡ log ++ r ∷ []
  unfolding send
  send-sent http decode r s = read-sent decode (log ++ r ∷ []) (http r s)

  pub send-IsSent :
      (http : Http S) (decode : Json → Option A) (r : Request) (s : S)
      → IsSent (send (logging http) decode r (s, log)) log (r ∷ [])
  unfolding IsSent
  send-IsSent http decode r s = ([], (append-nil _ ∙ send-sent http decode r s, λ a p. refl))

module _ {S A B : Type 0} (log : List Request) where
  pub continue-IsSent :
      (f : A → Session (S × List Request) B) (x : Answer A × (S × List Request))
      (first after : List Request)
      → IsSent x log first
      → ((a : A) (y : S × List Request) → IsSent (f a y) y.1 after)
      → IsSent (continue f x) log (first ++ after)
  unfolding IsSent
  continue-IsSent f (failed e, s) first after (rest, (q, h)) g =
      let moved : s.1 ++ (rest ++ after) ≡ log ++ (first ++ after) =
        sym (append_assoc s.1 rest after) ∙ ap (λ l. l ++ after) q ∙ append_assoc log first after in
      (rest ++ after, (moved, λ b p. absurd (cc p)))
  continue-IsSent f (done a, s) first after (rest, (q, h)) g =
      let none_left = h a refl in
      let (left, (p, k)) = g a s in
      let whole : s.1 ≡ log ++ first =
        sym (append-nil s.1) ∙ ap (λ l. s.1 ++ l) (sym none_left) ∙ q in
      (left, (p ∙ ap (λ l. l ++ after) whole ∙ append_assoc log first after, k))

module _ {S : Type 0} where
  -- A server that keeps the list of its requests answers as the server does, and adds the request to the list.
  abbrev pub with_log : {A : Type 0} → List Request → Answer A × S → Answer A × (S × List Request)
  with_log log (a, s) = (a, (s, log))

  read-with_log :
      {A : Type 0} (decode : Json → Option A) (log : List Request) (x : Option Response × S)
      → read_reply decode (record_answer log x) ≡ with_log log (read_reply decode x)
  read-with_log decode log (none, s) = refl
  read-with_log decode log (some r, s) = refl

  pub send-with_log :
      {A : Type 0} (http : Http S) (decode : Json → Option A) (r : Request) (s : S)
      (log : List Request)
      → send (logging http) decode r (s, log) ≡ with_log (log ++ r ∷ []) (send http decode r s)
  unfolding send
  send-with_log http decode r s log = read-with_log decode (log ++ r ∷ []) (http r s)
