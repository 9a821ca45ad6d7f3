-- ===== src/Io/Descriptors/FileDescriptor.antt =====
-- `FileDescriptor` of lib/include/aio.hpp.
use coroutine_http_server.Prelude.{ℕ, Option, none, some}
use coroutine_http_server.Io.Descriptors.{System, close_some}

pub record FileDescriptor : Type 0 where
  pub fd : Option ℕ

-- `FileDescriptor(fd)`
abbrev pub file_descriptor : ℕ → FileDescriptor
file_descriptor fd = record { fd = some fd }

-- The move constructor: the new object, and what is left of the other.
unfoldable pub move : FileDescriptor → FileDescriptor × FileDescriptor
move other = (record { fd = other.fd }, record { fd = none })

-- `~FileDescriptor`
unfoldable pub destroy : FileDescriptor → System → Option System
unfolding close_some
destroy f s = close_some f.fd s

unfoldable pub release : FileDescriptor → Option ℕ × FileDescriptor
release f = (f.fd, record { fd = none })
