-- ===== src/Sql.antt =====
-- acpd/internal/store/db.go: statements that change the database and may fail, and transactions.
-- What a statement wrote before a later one failed stays written until the transaction that holds
-- them is rolled back, so the state comes back beside the error too.
pub mod Rules
use Prim.Native.String.{String}

pub data Error : Type 0 where
  -- `absent` is the nil that fmt.Errorf wraps where a row is missing, and `panicked` a panic, which
  -- net/http recovers from.
  absent panicked : Error
  no_rows unique_violation foreign_key_violation invalid_json not_implemented : Error
  wrapped : String → Error → Error

pub data Result {ℓ} (A : Type ℓ) : Type ℓ where
  ok : A → Result A
  err : Error → Result A

abbrev pub Stmt : Type 0 → Type 0 → Type 0
Stmt S A = S → Result A × S

module _ {S A : Type 0} where
  abbrev pub pure : A → Stmt S A
  pure a s = (ok a, s)

  abbrev pub raise : Error → Stmt S A
  raise e s = (err e, s)

  abbrev pub wrap_result : String → Result A × S → Result A × S
  wrap_result msg (ok a, s) = (ok a, s)
  wrap_result msg (err e, s) = (err (wrapped msg e), s)

  -- fmt.Errorf("msg: %w", err)
  abbrev pub wrap : String → Stmt S A → Stmt S A
  wrap msg m s = wrap_result msg (m s)

  abbrev pub finish : S → Result A × S → Result A × S
  finish before (ok a, s) = (ok a, s)
  finish before (err e, s) = (err e, before)

  -- DB.Tx: a commit when the body returns nil, a rollback when it returns an error.
  unfoldable pub transact : Stmt S A → Stmt S A
  transact body s = finish s (body s)

module _ {S A B : Type 0} where
  abbrev pub continue : (A → Stmt S B) → Result A × S → Result B × S
  continue f (ok a, s) = f a s
  continue f (err e, s) = (err e, s)

  infixl 5 ◌>>=◌ ◌>>◌
  abbrev pub ◌>>=◌ : Stmt S A → (A → Stmt S B) → Stmt S B
  ◌>>=◌ m f s = continue f (m s)

  abbrev pub ◌>>◌ : Stmt S A → Stmt S B → Stmt S B
  m >> n = m >>= λ _. n

module _ {S A : Type 0} where
  -- `x, err := query` of what the state holds.
  abbrev pub gets : (S → A) → Stmt S A
  gets f s = (ok (f s), s)

abbrev pub write : {S : Type 0} → (S → S) → Stmt S (Unit {0})
write f s = (ok tt, f s)
