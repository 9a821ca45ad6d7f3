-- ===== src/Task/Chain/Stack.antt =====
-- The transfers of lib/include/task.hpp, against a stack of calls.
use mathlib.Core.Path.{subst}
use coroutine_http_server.Prelude.{
  sym, ℕ, true, false, Option, none, some, List, [], ◌∷◌, ◌==◌, ◌≡◌, refl, arith, All,
}
use coroutine_http_server.Task.Chain.{
  Control, set_prev, Transfer, awaits, ends, await_suspend, final_suspend, transfer, transfers,
}

-- The handles from the coroutine that runs, by way of `prev_`, are the stack.
abbrev pub Follows : (ℕ → Option ℕ) → Option ℕ → List ℕ → Type 0
Follows prev current [] = current ≡ none
Follows prev current (h ∷ stack) = (current ≡ some h) × Follows prev (prev h) stack

abbrev pub IsStack : Control → List ℕ → Type 0
IsStack s stack = Follows s.prev s.current stack

-- A call and a return, on a stack.
abbrev pub step : Transfer → List ℕ → List ℕ
step t [] = []
step (awaits coro) (h ∷ stack) = coro ∷ h ∷ stack
step ends (h ∷ stack) = stack

abbrev pub steps : List Transfer → List ℕ → List ℕ
steps [] stack = stack
steps (t ∷ ts) stack = steps ts (step t stack)

-- A task that is awaited has not ended its own call: it is not on the stack.
abbrev pub IsFresh : Transfer → List ℕ → Type 0
IsFresh (awaits coro) stack = All (λ h. (h == coro) ≡ false) stack
IsFresh ends stack = Unit

abbrev pub AreFresh : List Transfer → List ℕ → Type 0
AreFresh [] stack = Unit
AreFresh (t ∷ ts) stack = IsFresh t stack × AreFresh ts (step t stack)

-- A frame off the stack may change.
set_prev-Follows :
    (coro h : ℕ) (prev : ℕ → Option ℕ) (current : Option ℕ) (stack : List ℕ)
    → All (λ h'. (h' == coro) ≡ false) stack
    → Follows prev current stack
    → Follows (set_prev coro h prev) current stack
set_prev-Follows coro h prev current [] fresh follows = follows
set_prev-Follows coro h prev current (h' ∷ stack) (other, fresh) (e, follows) =
    (e, rw other (set_prev-Follows coro h prev (prev h') stack fresh follows))

module _ (s : Control) (h : ℕ) (e : s.current ≡ some h) where
  transfer_awaits : (coro : ℕ) → transfer (awaits coro) s ≡ await_suspend coro h s
  unfolding transfer
  transfer_awaits coro = ground arith

  transfer_ends : transfer ends s ≡ final_suspend h s
  unfolding transfer
  transfer_ends = ground arith

transfer-IsStack :
    (t : Transfer) (s : Control) (stack : List ℕ)
    → IsFresh t stack
    → IsStack s stack
    → IsStack (transfer t s) (step t stack)
unfolding transfer await_suspend final_suspend
transfer-IsStack (awaits coro) s [] fresh e = ground arith
transfer-IsStack ends s [] fresh e = ground arith
transfer-IsStack (awaits coro) s (h ∷ stack) fresh (e, follows) =
    let same : (coro == coro) ≡ true = ground arith in
    let behind = set_prev-Follows coro h s.prev (some h) (h ∷ stack) fresh (refl, follows) in
    subst (λ s'. IsStack s' (coro ∷ h ∷ stack)) (sym (transfer_awaits s h e coro))
      (refl, rw same behind)
transfer-IsStack ends s (h ∷ stack) fresh (e, follows) =
    subst (λ s'. IsStack s' stack) (sym (transfer_ends s h e)) follows

-- However coroutines await tasks and end, as long as no task is awaited that still has a call: control
-- goes as on a stack of calls, so each task that ends resumes the coroutine that awaits it.
pub transfers-IsStack :
    (ts : List Transfer) (s : Control) (stack : List ℕ)
    → AreFresh ts stack
    → IsStack s stack
    → IsStack (transfers ts s) (steps ts stack)
unfolding transfers
transfers-IsStack [] s stack fresh v = v
transfers-IsStack (t ∷ ts) s stack (fresh, later) v =
    transfers-IsStack ts (transfer t s) (step t stack) later (transfer-IsStack t s stack fresh v)
