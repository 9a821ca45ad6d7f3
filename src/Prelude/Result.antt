-- ===== src/Prelude/Result.antt =====
-- Results of code that may throw.
use Prim.Native.String.{String}
use mathlib.Core.Path.{◌≡◌, refl}

-- The exceptions of the program, with the fixed part of the message.
pub data Exception : Type 0 where
  runtime_error : String → Exception
  invalid_argument : String → Exception
  out_of_range : String → Exception
  length_error : String → Exception
  -- `EOFException`
  eof_exception : String → Exception
  -- What `check_syscall` throws, with the note.
  syscall_error : String → Exception

pub data Result {ℓ} (T : Type ℓ) : Type ℓ where
  throws : Exception → Result T
  ok : T → Result T

module _ {ℓ κ} {S : Type ℓ} {T : Type κ} where
  infixl 5 ◌>>=◌
  -- The code behind a statement runs on its value, if it does not throw.
  abbrev pub ◌>>=◌ : Result S → (S → Result T) → Result T
  throws x >>= k = throws x
  ok s >>= k = k s

  -- A chain that does not throw is the code behind it, on a value.
  pub >>=-eq-ok :
      (r : Result S) (k : S → Result T) {t : T}
      → (r >>= k) ≡ ok t
      → (s : S) × (r ≡ ok s) × (k s ≡ ok t)
  >>=-eq-ok (throws x) k e = cc
  >>=-eq-ok (ok s) k e = (s, refl, e)
