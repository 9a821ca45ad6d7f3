-- ===== src/Http/Stdio.antt =====
-- What the program uses of a `FILE *`: `fgets` and `fread`. The bytes that have not been read are
-- given, and whether a read error stands behind them (`errno` is set) or the end of the file.
use coroutine_http_server.Prelude.{ℕ, zero, suc, Bool, [], ◌∷◌, ◌==◌, if◌then◌else◌, Bytes}

pub record Stdio : Type 0 where
  pub unread : Bytes
  pub has_error : Bool

-- `fgets` with room for that many bytes, the last one among them a newline or the last in the room:
-- the bytes stored, and what stays unread.
unfoldable pub fgets : ℕ → Bytes → Bytes × Bytes
fgets zero s = ([], s)
fgets (suc n) [] = ([], [])
fgets (suc n) (c ∷ s) =
    let (line, rest) = fgets n s in if c == 10 then (c ∷ [], s) else (c ∷ line, rest)

-- The string that a `char` array holds: up to the first NUL.
unfoldable pub c_string : Bytes → Bytes
c_string [] = []
c_string (c ∷ s) = let rest = c_string s in if c == 0 then [] else c ∷ rest
