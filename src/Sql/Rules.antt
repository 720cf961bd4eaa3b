-- ===== src/Sql/Rules.antt =====
-- Transactions are atomic, and what a successful chain of statements went through.
use agent_control_plane.Prelude.{String, ◌≡◌, refl}
use agent_control_plane.Sql.{
  Error, Result, ok, err, Stmt, wrap, wrap_result, finish, transact, continue, ◌>>=◌,
}

module _ {S A : Type 0} where
  finish_atomic :
      (s : S) (p : Result A × S) {e : Error} → (finish s p).0 ≡ err e → (finish s p).1 ≡ s
  finish_atomic s (ok a, t) h = cc
  finish_atomic s (err e, t) h = refl

  pub transact_atomic :
      (m : Stmt S A) (s : S) {e : Error} → (transact m s).0 ≡ err e → (transact m s).1 ≡ s
  unfolding transact
  transact_atomic m s h = finish_atomic s (m s) h

  finish-eq-ok : (s t : S) (p : Result A × S) (a : A) → finish s p ≡ (ok a, t) → p ≡ (ok a, t)
  finish-eq-ok s t (ok b, u) a h = h
  finish-eq-ok s t (err e, u) a h = absurd (cc h)

  pub transact-eq-ok : (m : Stmt S A) (s t : S) (a : A) → transact m s ≡ (ok a, t) → m s ≡ (ok a, t)
  unfolding transact
  transact-eq-ok m s t a h = finish-eq-ok s t (m s) a h

  pub transact_of_ok : (m : Stmt S A) (s t : S) (a : A) → m s ≡ (ok a, t) → transact m s ≡ (ok a, t)
  unfolding transact
  transact_of_ok m s t a h = rw h

  wrap_result-eq-ok :
      (msg : String) (t : S) (p : Result A × S) (a : A)
      → wrap_result msg p ≡ (ok a, t)
      → p ≡ (ok a, t)
  wrap_result-eq-ok msg t (ok b, u) a h = h
  wrap_result-eq-ok msg t (err e, u) a h = absurd (cc h)

  pub wrap-eq-ok :
      (msg : String) (m : Stmt S A) (s t : S) (a : A) → wrap msg m s ≡ (ok a, t) → m s ≡ (ok a, t)
  wrap-eq-ok msg m s t a h = wrap_result-eq-ok msg t (m s) a h

module _ {S A B : Type 0} where
  continue-eq-ok :
      (f : A → Stmt S B) (p : Result A × S) (b : B) (u : S)
      → continue f p ≡ (ok b, u)
      → (a : A) × (t : S) × (p ≡ (ok a, t)) × (f a t ≡ (ok b, u))
  continue-eq-ok f (ok a, t) b u h = (a, t, refl, h)
  continue-eq-ok f (err e, t) b u h = absurd (cc h)

  -- A chain that succeeds went through a first part that succeeded.
  pub >>=-eq-ok :
      (m : Stmt S A) (f : A → Stmt S B) (s u : S) (b : B)
      → (m >>= f) s ≡ (ok b, u)
      → (a : A) × (t : S) × (m s ≡ (ok a, t)) × (f a t ≡ (ok b, u))
  >>=-eq-ok m f s u b h = continue-eq-ok f (m s) b u h
