-- ===== src/Task/Promise.antt =====
-- `Promise` of lib/include/task.hpp: what a coroutine leaves in it, and what `result` gives to the one
-- that awaits it.
use coroutine_http_server.Prelude.{List, [], ◌∷◌}
use coroutine_http_server.Prelude.Result.{Exception, Result, ok, throws, runtime_error}

-- `PromiseVariant`
pub data Variant {ℓ} (A : Type ℓ) : Type ℓ where
  monostate : Variant A
  value : A → Variant A
  exception : Exception → Variant A

-- What the body of a coroutine does to its promise.
pub data Act {ℓ} (A : Type ℓ) : Type ℓ where
  yields : A → Act A
  returns : A → Act A
  fails : Exception → Act A

module _ {ℓ} {A : Type ℓ} where
  -- `return_value`, `yield_value` and `unhandled_exception`
  unfoldable pub act : Act A → Variant A → Variant A
  act (yields x) result = value x
  act (returns x) result = value x
  act (fails e) result = exception e

  unfoldable pub acts : List (Act A) → Variant A → Variant A
  unfolding act
  acts [] result = result
  acts (a ∷ rest) result = acts rest (act a result)

  -- `Promise::result`, and so `TaskAwaiter::await_resume`
  unfoldable pub result : Variant A → Result A
  result (exception e) = throws e
  result (value x) = ok x
  result monostate = throws (runtime_error "The value is not set: ")
