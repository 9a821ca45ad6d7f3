-- ===== src/Utility/Escape/RoundTrip.antt =====
-- A reader of what `escape` of lib/include/utility.hpp writes: it takes two hexadecimal digits behind
-- `\x`, where a string literal of C++ takes all that follow (Utility/Escape/Literal).
use coroutine_http_server.Prelude.{
  ℕ, zero, suc, ◌+◌, ◌*◌, ◌/◌, ◌%◌, ◌<◌, ◌≤◌, Bool, true, false, Option, none, some, [], ◌∷◌, ◌++◌,
  ◌≡◌, refl, ◌==◌, ltb, ==_iff, if◌then◌else◌, get_or, arith, Bytes, All, append_assoc,
}
use coroutine_http_server.Utility.Escape.{
  hexdig, quote, backslash, escape_byte, escape_loop, escape,
}

-- The reader, one byte at a time: in the text, behind a backslash, and behind `\x` with the first of the
-- two digits read or not.
pub data Mode : Type 0 where
  text slash hex : Mode
  low : ℕ → Mode

-- The value of an upper-case hexadecimal digit.
abbrev pub digit_value : ℕ → ℕ
digit_value c = if ltb c b'A' then c % 16 else c % 16 + 9

-- What a one-letter escape stands for.
abbrev pub letter : ℕ → Option ℕ
letter c =
    if c == quote
    then some quote
    else if c == backslash
    then some backslash
    else if c == b't'
    then some 9
    else if c == b'r'
    then some 13
    else if c == b'n'
    then some 10
    else none

abbrev cons : ℕ → Option Bytes → Option Bytes
cons c none = none
cons c (some s) = some (c ∷ s)

-- The text up to the closing quote, with which the input ends.
abbrev closed : Bytes → Option Bytes
closed [] = some []
closed (_ ∷ _) = none

unfoldable pub read : Mode → Bytes → Option Bytes
read mode [] = none
read text (c ∷ s) = elim (c == quote) [
  | true ↦ closed s
  | false ↦ elim (c == backslash) [ true ↦ read slash s | false ↦ cons c (read text s) ]
]
read slash (c ∷ s) = elim (c == b'x') [
  | true ↦ read hex s
  | false ↦ elim (letter c) [ none ↦ none | some d ↦ cons d (read text s) ]
]
read hex (c ∷ s) = read (low (digit_value c)) s
read (low h) (c ∷ s) = cons (h * 16 + digit_value c) (read text s)

-- The opening quote, and the rest.
unfoldable pub unescape : Bytes → Option Bytes
unfolding read
unescape [] = none
unescape (c ∷ s) = elim (c == quote) [ true ↦ read text s | false ↦ none ]

-- The test holds of each digit from `d` down.
abbrev each_digit : (ℕ → Bool) → ℕ → Bool
each_digit test zero = test 0
each_digit test (suc d) = elim (each_digit test d) [ false ↦ false | true ↦ test (suc d) ]

pub each_digit-at : (test : ℕ → Bool) (d c : ℕ) → c ≤ d → each_digit test d ≡ true → test c ≡ true
each_digit-at test zero c le e = let first : c ≡ 0 = omega arith in rw first e
each_digit-at test (suc d) c le e = ground (arith, each_digit-at test d c)

pub digit_value-hexdig : (d : ℕ) → d < 16 → digit_value (get_or hexdig d 0) ≡ d
digit_value-hexdig d h =
    (==_iff _ d).0
      (each_digit-at (λ x. digit_value (get_or hexdig x 0) == x) 15 d (omega arith) refl)

read-escape_byte :
    (c : ℕ) (rest : Bytes) → c < 256 → read text (escape_byte c ++ rest) ≡ cons c (read text rest)
unfolding read escape_byte
read-escape_byte c rest h = ground (arith, digit_value-hexdig (c / 16), digit_value-hexdig (c % 16))

read-escape_loop :
    (s : Bytes) → All (λ c. c < 256) s → read text (escape_loop s ++ quote ∷ []) ≡ some s
unfolding escape_loop read
read-escape_loop [] h = refl
read-escape_loop (c ∷ s) h =
    rw append_assoc (rw (read-escape_byte c _ h.0) (rw (read-escape_loop s h.1)))

-- A reader that takes exactly two digits behind `\x` makes the bytes again of the escaped form of any
-- bytes, so no two strings have the same escaped form.
pub unescape-escape : (s : Bytes) → All (λ c. c < 256) s → unescape (escape s) ≡ some s
unfolding escape unescape
unescape-escape s h = read-escape_loop s h
