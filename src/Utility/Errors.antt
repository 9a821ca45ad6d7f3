-- ===== src/Utility/Errors.antt =====
-- `get_source_location_string` and `check_syscall` of lib/include/utility.hpp. The name of an error number,
-- which `strerrorname_np` gives, is a parameter.
use coroutine_http_server.Prelude.{
  ℕ, zero, suc, ◌≤◌, Option, none, some, [], ◌∷◌, ◌++◌, ◌≡◌, ◌≢◌, ◌⊎◌, inl, inr, refl, arith, Bytes,
  codes,
}
use coroutine_http_server.Prelude.Result.{ok}
use coroutine_http_server.Prelude.Decimal.{ℤ, pos, negsuc, to_string, stoi, int_max}
use coroutine_http_server.Prelude.Decimal.RoundTrip.{stoi-to_string}

-- The name of the function, if the pointer to it is not null and the text is not empty.
unfoldable pub function_line : Option Bytes → Bytes
function_line none = []
function_line (some []) = []
function_line (some (c ∷ pf)) = codes "\nfunc: " ++ c ∷ pf

unfoldable pub get_source_location_string : Bytes → ℕ → Option Bytes → Bytes
unfolding to_string function_line
get_source_location_string file line pf =
    codes "line: " ++ file ++ codes ":" ++ to_string line ++ function_line pf

-- The value is returned, or a `std::runtime_error` is thrown.
pub data Checked : Type 0 where
  returned : ℤ → Checked
  runtime_error : Bytes → Checked

module _ (strerrorname_np : ℕ → Bytes) where
  -- The text of the exception, with `errno`: its part behind the number, and the whole.
  unfoldable pub error_rest : ℕ → Bytes → ℕ → Option Bytes → Bytes → Bytes
  unfolding get_source_location_string
  error_rest err file line pf expr =
      strerrorname_np err
      ++ codes "\n"
      ++ get_source_location_string file line pf
      ++ codes "\nnote: "
      ++ expr

  unfoldable pub error_text : ℕ → Bytes → ℕ → Option Bytes → Bytes → Bytes
  unfolding to_string error_rest
  error_text err file line pf expr =
      codes "[" ++ (to_string err ++ (codes "] " ++ error_rest err file line pf expr))

  unfoldable pub check_syscall : ℤ → ℕ → Bytes → ℕ → Option Bytes → Bytes → Checked
  unfolding error_text
  check_syscall (pos n) err file line pf expr = returned (pos n)
  check_syscall (negsuc zero) err file line pf expr =
      runtime_error (error_text err file line pf expr)
  check_syscall (negsuc (suc n)) err file line pf expr = returned (negsuc (suc n))

  -- A system call that does not give -1 gives its result; for one that does, with an error number that is
  -- an `int`, an exception is thrown from whose text, behind the bracket, that number can be read.
  check_syscall_says :
      (ret : ℤ) (err : ℕ) (file : Bytes) (line : ℕ) (pf : Option Bytes) (expr : Bytes)
      → err ≤ int_max
      → ((ret ≢ negsuc 0) × (check_syscall ret err file line pf expr ≡ returned ret))
        ⊎ ((ret ≡ negsuc 0)
            × ((rest : Bytes) × (check_syscall ret err file line pf expr
                  ≡ runtime_error (codes "[" ++ rest))
                × (stoi rest ≡ ok (pos err))))
  unfolding check_syscall
  check_syscall_says (pos n) err file line pf expr h = inl ((λ e. cc), refl)
  check_syscall_says (negsuc (suc n)) err file line pf expr h = inl ((λ e. ground arith), refl)
  check_syscall_says (negsuc zero) err file line pf expr h =
      let rest = codes "] " ++ error_rest err file line pf expr in
      inr (refl, (to_string err ++ rest, refl, stoi-to_string err rest h refl))
