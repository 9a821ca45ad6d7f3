-- ===== src/Io/Descriptors/AsyncFileStream.antt =====
-- `AsyncFileStream` of lib/include/aio.hpp. A `FILE *` is the descriptor that it was opened on, and the
-- null pointer is `none`.
use coroutine_http_server.Prelude.{ℕ, Bool, true, false, Option, none, some}
use coroutine_http_server.Io.Descriptors.{System, close_some}
use coroutine_http_server.Io.Descriptors.AsyncFile
use coroutine_http_server.Io.Descriptors.AsyncFile.{AsyncFile}

pub record AsyncFileStream : Type 0 where
  pub af : AsyncFile
  pub handle : Option ℕ

-- `fdopen`: none if it fails, as it does for the descriptor -1.
abbrev pub fdopen : Bool → Option ℕ → Option ℕ
fdopen true fd = fd
fdopen false fd = none

-- What a constructor does to the open descriptors: it gives the object, or throws.
pub data Built (A : Type 0) : Type 0 where
  built : A → System → Built A
  threw : System → Built A

-- `AsyncFileStream(f, mode)`: `f` is moved into `af_`, which is destroyed if `fdopen` fails. What is
-- left of `f` is destroyed in any case. The Boolean says whether `fdopen` can open a descriptor.
unfoldable pub async_file_stream : AsyncFile → Bool → System → Option (Built AsyncFileStream)
unfolding AsyncFile.move AsyncFile.destroy
async_file_stream f opens s =
    let (af, f') = AsyncFile.move f in
    elim (fdopen opens af.fd) [
      | none ↦ elim (AsyncFile.destroy af s) [
        | none ↦ none
        | some s' ↦ elim (AsyncFile.destroy f' s') [ none ↦ none | some s'' ↦ some (threw s'') ]
      ]
      | some fp ↦
          let stream : AsyncFileStream = record {
            af = record af { borrow = true };
            handle = some fp;
          } in
          elim (AsyncFile.destroy f' s) [ none ↦ none | some s' ↦ some (built stream s') ]
    ]

-- The move constructor: the new stream, and what is left of the other.
unfoldable pub move : AsyncFileStream → AsyncFileStream × AsyncFileStream
unfolding AsyncFile.move
move other = (
  record { af = (AsyncFile.move other.af).0; handle = other.handle },
  record { af = (AsyncFile.move other.af).1; handle = none },
)

-- `~AsyncFileStream`: `handle_` with its `FileCloser`, and then `af_`.
unfoldable pub destroy : AsyncFileStream → System → Option System
unfolding close_some AsyncFile.destroy
destroy f s = elim (close_some f.handle s) [ none ↦ none | some s' ↦ AsyncFile.destroy f.af s' ]
