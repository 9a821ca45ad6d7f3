-- ===== src/Utility/Ctype.antt =====
-- <cctype> in the "C" locale, on bytes. A `char` above 127 is in no class and has no other case.
use coroutine_http_server.Prelude.{ℕ, ◌+◌, Bool, ◌&&◌, ◌||◌, ◌==◌, leb, if◌then◌else◌}

abbrev pub is_upper : ℕ → Bool
is_upper c = leb b'A' c && leb c b'Z'

abbrev is_lower : ℕ → Bool
is_lower c = leb b'a' c && leb c b'z'

abbrev pub is_digit : ℕ → Bool
is_digit c = leb b'0' c && leb c b'9'

-- `std::tolower`
unfoldable pub tolower : ℕ → ℕ
tolower c = if is_upper c then c + 32 else c

-- `std::isalnum`
unfoldable pub isalnum : ℕ → Bool
isalnum c = is_upper c || is_lower c || is_digit c

-- `std::isspace`: space, and \t \n \v \f \r
unfoldable pub isspace : ℕ → Bool
isspace c = c == b' ' || (leb 9 c && leb c 13)
