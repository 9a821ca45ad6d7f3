-- ===== src/Io/Descriptors/FileStream.antt =====
-- `FileStream` of lib/include/aio.hpp.
use coroutine_http_server.Prelude.{ℕ, Bool, Option, none, some}
use coroutine_http_server.Io.Descriptors.{System, close_some}
use coroutine_http_server.Io.Descriptors.AsyncFileStream.{Built, built, threw, fdopen}
use coroutine_http_server.Io.Descriptors.FileDescriptor
use coroutine_http_server.Io.Descriptors.FileDescriptor.{FileDescriptor}

pub record FileStream : Type 0 where
  pub stream : Option ℕ

-- `FileStream(fd, mode)`: the parameter is destroyed at the end, and owns the descriptor unless the
-- stream does.
unfoldable pub file_stream : FileDescriptor → Bool → System → Option (Built FileStream)
unfolding FileDescriptor.destroy
file_stream fd opens s = elim (fdopen opens fd.fd) [
  | none ↦ elim (FileDescriptor.destroy fd s) [ none ↦ none | some s' ↦ some (threw s') ]
  | some fp ↦
      let left : FileDescriptor = record { fd = none } in
      let stream : FileStream = record { stream = some fp } in
      elim (FileDescriptor.destroy left s) [ none ↦ none | some s' ↦ some (built stream s') ]
]

-- The move constructor: the new stream, and what is left of the other.
unfoldable pub move : FileStream → FileStream × FileStream
move other = (record { stream = other.stream }, record { stream = none })

-- `~FileStream`
unfoldable pub destroy : FileStream → System → Option System
unfolding close_some
destroy f s = close_some f.stream s
