-- ===== src/Utility/Escape.antt =====
-- `write_escaped` and `escape` of lib/include/utility.hpp. The output iterator is the bytes that it
-- writes.
pub mod RoundTrip
pub mod Literal
use coroutine_http_server.Prelude.{
  ℕ, ◌+◌, ◌/◌, ◌%◌, Bool, not, ◌&&◌, List, [], ◌∷◌, ◌++◌, ◌==◌, leb, if◌then◌else◌, ltb, get_or,
  Bytes, codes,
}

abbrev pub hexdig : Bytes
hexdig = codes "0123456789ABCDEF"

abbrev pub quote : ℕ
quote = 34

abbrev pub backslash : ℕ
backslash = 92

-- What the switch writes after the backslash.
unfoldable pub escape_code : ℕ → Bytes
escape_code c =
    if c == quote
    then quote ∷ []
    else if c == backslash
    then backslash ∷ []
    else if c == 9
    then b't' ∷ []
    else if c == 13
    then b'r' ∷ []
    else if c == 10
    then b'n' ∷ []
    else b'x' ∷ get_or hexdig (c / 16) 0 ∷ get_or hexdig (c % 16) 0 ∷ []

-- One round of the loop.
unfoldable pub escape_byte : ℕ → Bytes
unfolding escape_code
escape_byte c =
    if leb 32 c && leb c 126 && not (c == backslash) && not (c == quote)
    then c ∷ []
    else backslash ∷ escape_code c

-- The loop of `write_escaped`.
unfoldable pub escape_loop : Bytes → Bytes
unfolding escape_byte
escape_loop [] = []
escape_loop (c ∷ s) = escape_byte c ++ escape_loop s

-- `write_escaped`, and so `escape`
unfoldable pub escape : Bytes → Bytes
unfolding escape_loop
escape s = quote ∷ (escape_loop s ++ quote ∷ [])
