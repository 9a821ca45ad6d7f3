-- ===== src/Io/Descriptors/AsyncFile.antt =====
-- `AsyncFile` of lib/include/aio.hpp.
use Prim.Native.Nat.{bit_or}
use coroutine_http_server.Prelude.{
  ℕ, zero, suc, Bool, false, not, Option, none, some, ◌==◌, ◌≡◌, refl, if◌then◌else◌, arith,
}
use coroutine_http_server.Prelude.Owned.{occurs}
use coroutine_http_server.Io.Descriptors.{System, close_some}

pub record AsyncFile : Type 0 where
  pub fd : Option ℕ
  pub borrow : Bool

abbrev pub o_nonblock : ℕ
o_nonblock = 0o4000

-- `fcntl(fd, F_SETFL, flags | O_NONBLOCK)`, with the flags that `F_GETFL` gives.
abbrev pub add_nonblock : ℕ → System → System
add_nonblock fd s = record s {
  flags = λ x. if x == fd then bit_or (s.flags fd) o_nonblock else s.flags x;
}

unfoldable pub set_nonblock : ℕ → System → Option System
unfolding occurs
set_nonblock fd s = if occurs fd s.opened then some (add_nonblock fd s) else none

-- `AsyncFile(fd, nonblock, borrow)`
unfoldable pub async_file : ℕ → Bool → Bool → System → Option (AsyncFile × System)
unfolding set_nonblock
async_file fd nonblock borrow s =
    let f : AsyncFile = record { fd = some fd; borrow = borrow } in
    if nonblock
    then elim (set_nonblock fd s) [ none ↦ none | some s' ↦ some (f, s') ]
    else some (f, s)

-- `AsyncFile(AsyncFile &&other)`: the new file, and what is left of the other.
unfoldable pub move : AsyncFile → AsyncFile × AsyncFile
move other = (other, record { fd = none; borrow = false })

-- `~AsyncFile`
unfoldable pub destroy : AsyncFile → System → Option System
unfolding close_some
destroy f s = if not f.borrow then close_some f.fd s else some s

-- The descriptor that it gives out, and the file.
unfoldable pub release : AsyncFile → Option ℕ × AsyncFile
release f = (f.fd, record f { fd = none })

-- `operator=` of two files, on fuel for the calls; the files behind it and the temporary one.
-- `std::swap(a, b)` moves `a` out, and assigns by move twice. The assertion is left out: where it fails
-- the process ends.
unfoldable pub assign : ℕ → AsyncFile → AsyncFile → Option (AsyncFile × AsyncFile)
unfolding move
assign zero f other = none
assign (suc fuel) f other =
    let (temp, other') = move other in
    let (t, temp') = move temp in
    elim (assign fuel temp' f) [
      | none ↦ none
      | some (temp'', f') ↦ elim (assign fuel f' t) [
        | none ↦ none
        | some (f'', t') ↦ some (f'', other')
      ]
    ]

-- The move assignment of two files does not end, whatever the files.
pub assign_diverges : (fuel : ℕ) (f other : AsyncFile) → assign fuel f other ≡ none
unfolding assign
assign_diverges zero f other = refl
assign_diverges (suc fuel) f other = ground (arith, assign_diverges fuel (move (move other).0).1 f)
