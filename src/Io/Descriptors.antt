-- ===== src/Io/Descriptors.antt =====
-- The file descriptors of the process, as the classes of lib/include/aio.hpp that own them see them.
-- The descriptor -1 is `none`. A system call on a descriptor that is not open fails, and the exception
-- of `CHECK_SYSCALL` in a destructor, or in a constructor that is `noexcept`, ends the process: that is
-- the result `none`.
pub mod AsyncFile
pub mod AsyncFileStream
pub mod FileDescriptor
pub mod FileStream
pub mod Session
pub mod Owners
pub mod Owned
pub mod Standard
use coroutine_http_server.Prelude.{ℕ, Bool, Option, none, some, List, if◌then◌else◌}
use coroutine_http_server.Prelude.Owned.{free_some}

-- The descriptors that are open, and their status flags.
pub record System : Type 0 where
  pub opened : List ℕ
  pub flags : ℕ → ℕ

-- `CHECK_SYSCALL(close(fd))`, unless the descriptor is -1.
unfoldable pub close_some : Option ℕ → System → Option System
unfolding free_some
close_some fd s = elim (free_some fd s.opened) [
  | none ↦ none
  | some opened ↦ some (record s { opened = opened })
]
