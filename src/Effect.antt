-- ===== src/Effect.antt =====
-- relayq/domain/errors.py, with the exceptions of Python and its libraries that the program meets.
-- Code that may raise and changes no state returns a `Result`; code with effects is an `Action`.
pub mod Action
use relayq.Prelude.{ℕ, String, ◌≡◌, refl, ◌⊎◌, inl, inr, Bool, true, false, Option, none, some}

-- The exceptions that the program raises, catches or lets through.
pub data Exception : Type 0 where
  queue_full : String → ℕ → ℕ → Exception
  job_timeout : String → ℕ → Exception
  circuit_open : String → ℕ → Exception
  idempotency_conflict : String → Exception
  admission_blocked : String → ℕ → ℕ → Exception
  timeout_error : Exception
  cancelled_error : Exception
  connection_error : Exception
  response_error : String → Exception
  integrity_error : Exception
  operational_error : Exception
  key_error : String → Exception
  value_error : Exception
  json_decode_error : Exception
  type_error : Exception
  attribute_error : Exception
  handler_error : String → Exception
  -- No Python exception: a dict whose field has a type that RelayQ never writes there. Python would
  -- carry the value on unchecked, and the model says nothing of it.
  untyped_field : String → Exception

-- `except Exception` takes every exception but `asyncio.CancelledError`, a `BaseException`.
unfoldable pub is_exception : Exception → Bool
is_exception cancelled_error = false
is_exception _ = true

pub data Result {ℓ} (A : Type ℓ) : Type ℓ where
  ok : A → Result A
  err : Exception → Result A

infixl 5 ◌>>=◌
abbrev pub ◌>>=◌ {ℓ κ} : {A : Type ℓ} {B : Type κ} → Result A → (A → Result B) → Result B
ok a >>= f = f a
err e >>= f = err e

-- The value of an `Option`, or an exception where there is none.
abbrev pub or_raise {ℓ} : {A : Type ℓ} → Option A → Exception → Result A
or_raise none e = err e
or_raise (some a) e = ok a

-- To split on a computed result and keep the equation.
pub Result-cases {ℓ} :
    {A : Type ℓ} (r : Result A) → ((a : A) × (r ≡ ok a)) ⊎ ((e : Exception) × (r ≡ err e))
Result-cases (ok a) = inl (a, refl)
Result-cases (err e) = inr (e, refl)

-- The result is no cancellation of the task: a value, or an exception that `except Exception` takes.
abbrev pub NotCancelled {ℓ} : {A : Type ℓ} → Result A → Type 0
NotCancelled (ok _) = Unit
NotCancelled (err e) = is_exception e ≡ true
