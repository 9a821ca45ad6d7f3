-- ===== src/Utility.antt =====
-- lib/include/utility.hpp: `check_syscall` in Errors, `write_escaped` and `escape` in Escape, `namespace cmp` in Compare, and
-- the functions of <cctype> that the library calls in Ctype.
pub mod Ctype
pub mod Compare
pub mod Escape
pub mod Errors
pub mod TypeName
