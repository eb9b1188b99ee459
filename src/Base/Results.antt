-- ===== src/Base/Results.antt =====
-- A function that may raise: the exceptions that the program raises and catches, as values.
use mathlib.Core.Path.{◌≡◌, refl}
use mathlib.Core.Logic.{◌⊎◌, inl, inr}
use mathlib.Core.Bool.{Bool, true, false}
use native.Mathlib.Omega.{arith}
use Prim.Native.Nat.{ℕ}
use Prim.Native.String.{String}

-- ValueError, TypeError, IndexError, OSError and AttributeError with their message, HTTPException with its status and
-- detail, and what SQLAlchemy raises.
pub data Exn : Type 0 where
  value_error : String → Exn
  type_error : String → Exn
  http_exception : ℕ → String → Exn
  database_error : String → Exn
  index_error : String → Exn
  os_error : String → Exn
  attribute_error : String → Exn

-- `str(exc)`
unfoldable pub message : Exn → String
message (value_error text) = text
message (type_error text) = text
message (http_exception status detail) = detail
message (database_error text) = text
message (index_error text) = text
message (os_error text) = text
message (attribute_error text) = text

-- What a call gives: it raises, or it returns.
pub data Result {ℓ} (Returned : Type ℓ) : Type ℓ where
  err : Exn → Result Returned
  ok : Returned → Result Returned

module _ {ℓ} {A : Type ℓ} where
  pub ok_inj : {a b : A} → ok a ≡ ok b → a ≡ b
  ok_inj h = ground arith

  pub Result-cases : (r : Result A) → ((a : A) × (r ≡ ok a)) ⊎ ((e : Exn) × (r ≡ err e))
  Result-cases (err e) = inr (e, refl)
  Result-cases (ok a) = inl (a, refl)

-- An exception of the first call ends the chain.
module _ {ℓ κ} {A : Type ℓ} {B : Type κ} where
  infixl 5 ◌>>=◌
  abbrev pub ◌>>=◌ : Result A → (A → Result B) → Result B
  call >>= next = elim call [ err e ↦ err e | ok a ↦ next a ]

  -- What a successful run of a chain has passed through.
  pub >>=-eq-ok :
      (call : Result A) (next : A → Result B) {b : B}
      → (call >>= next) ≡ ok b
      → (a : A) × (call ≡ ok a) × (next a ≡ ok b)
  >>=-eq-ok (err e) next h = cc
  >>=-eq-ok (ok a) next h = (a, refl, h)

-- `if bad: raise exn`
abbrev pub raise_if : Bool → Exn → Result (Unit {0})
raise_if false e = ok tt
raise_if true e = err e

module _ {ℓ} {B : Type ℓ} where
  infixl 5 ◌>>◌
  abbrev pub ◌>>◌ : Result (Unit {0}) → Result B → Result B
  check >> rest = elim check [ err e ↦ err e | ok _ ↦ rest ]

  pub raise_if-eq-ok :
      (bad : Bool) (e : Exn) (rest : Result B) {b : B}
      → (raise_if bad e >> rest) ≡ ok b
      → (bad ≡ false) × (rest ≡ ok b)
  raise_if-eq-ok false e rest h = (refl, h)
  raise_if-eq-ok true e rest h = cc

-- `except ValueError: return False`
abbrev pub or_false : Result Bool → Bool
or_false (ok b) = b
or_false (err _) = false
