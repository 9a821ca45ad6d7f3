-- ===== src/Utility/Escape/Literal.antt =====
-- `escape` of lib/include/utility.hpp against the string literals of C++, in which `\x` takes as many
-- hexadecimal digits as follow.
use coroutine_http_server.Prelude.{
  ℕ, ◌+◌, ◌*◌, ◌/◌, ◌%◌, ◌<◌, Bool, true, false, ◌||◌, ◌&&◌, not, Option, none, some, [], ◌∷◌, ◌++◌,
  ◌≡◌, refl, ap, ◌∙◌, ◌==◌, ltb, leb, if◌then◌else◌, get_or, arith, Bytes, All, append_assoc,
  Bool-cases, inl, inr,
}
use coroutine_http_server.Utility.Escape.{
  hexdig, quote, backslash, escape_byte, escape_loop, escape, escape_code,
}
use coroutine_http_server.Utility.Escape.RoundTrip.{
  digit_value, letter, digit_value-hexdig, each_digit-at,
}

abbrev pub is_hex : ℕ → Bool
is_hex c = (leb b'0' c && leb c b'9') || (leb b'A' c && leb c b'F') || (leb b'a' c && leb c b'f')

-- Where a reader of a literal is: in the text, behind a backslash, behind `\x`, behind digits with their
-- value so far, or behind the closing quote.
pub data Place : Type 0 where
  text slash hex closed : Place
  digits : ℕ → Place

abbrev Step : Type 0
Step = Option (Bytes × Place)

abbrev in_text : ℕ → Step
in_text c =
    if c == quote
    then some ([], closed)
    else if c == backslash
    then some ([], slash)
    else some (c ∷ [], text)

abbrev emit : ℕ → Step → Step
emit v none = none
emit v (some (out, place)) = some (v ∷ out, place)

abbrev after_slash : Option ℕ → Step
after_slash none = none
after_slash (some d) = some (d ∷ [], text)

-- One byte: what it adds to the text, and where the reader is then. A value that no byte has is an error.
unfoldable pub step : Place → ℕ → Step
step text c = in_text c
step slash c = if c == b'x' then some ([], hex) else after_slash (letter c)
step hex c = if is_hex c then some ([], digits (digit_value c)) else none
step (digits v) c =
    if is_hex c
    then some ([], digits (v * 16 + digit_value c))
    else if ltb v 256
    then emit v (in_text c)
    else none
step closed c = none

abbrev join : Bytes → Option Bytes → Option Bytes
join out none = none
join out (some s) = some (out ++ s)

-- At the end of the input.
abbrev at_end : Place → Option Bytes
at_end closed = some []
at_end _ = none

unfoldable pub read : Place → Bytes → Option Bytes
unfolding step
read place [] = at_end place
read place (c ∷ s) = elim (step place c) [
  | none ↦ none
  | some (out, place') ↦ join out (read place' s)
]

-- A string literal: the opening quote, and the rest.
unfoldable pub literal : Bytes → Option Bytes
unfolding read
literal [] = none
literal (c ∷ s) = if c == quote then read text s else none

-- `escape` writes the byte with `\x`.
abbrev pub is_coded : ℕ → Bool
is_coded c = not (leb 32 c && leb c 126) && not (c == 9) && not (c == 10) && not (c == 13)

-- No byte that is written with `\x` stands in front of a hexadecimal digit.
abbrev pub IsApart : Bytes → Type 0
IsApart [] = Unit
IsApart (c ∷ []) = Unit
IsApart (c ∷ d ∷ s) = ((is_coded c && is_hex d) ≡ false) × IsApart (d ∷ s)

join_nil : (m : Option Bytes) → join [] m ≡ m
join_nil none = refl
join_nil (some s) = refl

join-emit :
    (v : ℕ) (st : Step) (s : Bytes)
    → elim (emit v st) [ none ↦ none | some (out, place) ↦ join out (read place s) ]
      ≡ join (v ∷ []) (elim st [ none ↦ none | some (out, place) ↦ join out (read place s) ])
join-emit v none s = refl
join-emit v (some (out, place)) s = again (read place s)
  where
    again : (m : Option Bytes) → join (v ∷ out) m ≡ join (v ∷ []) (join out m)
    again none = refl
    again (some t) = refl

read-step :
    (place place' : Place) (c : ℕ) (out s : Bytes)
    → step place c ≡ some (out, place')
    → read place (c ∷ s) ≡ join out (read place' s)
unfolding read
read-step place place' c out s e =
    ap (λ (st : Step). elim st [ none ↦ none | some (out, place) ↦ join out (read place s) ]) e

-- A byte that is no hexadecimal digit ends the value.
step-digits : (v c : ℕ) → v < 256 → is_hex c ≡ false → step (digits v) c ≡ emit v (in_text c)
unfolding step
step-digits v c h e = let small : ltb v 256 ≡ true = ground arith in rw (step, e, small) refl

read-digits :
    (v c : ℕ) (s : Bytes)
    → v < 256
    → is_hex c ≡ false
    → read (digits v) (c ∷ s) ≡ join (v ∷ []) (read text (c ∷ s))
unfolding read step
read-digits v c s h e =
    ap (λ (st : Step). elim st [ none ↦ none | some (out, place) ↦ join out (read place s) ])
      (step-digits v c h e)
    ∙ join-emit v (in_text c) s

read-plain :
    (c : ℕ) (rest : Bytes)
    → is_coded c ≡ false
    → read text (escape_byte c ++ rest) ≡ join (c ∷ []) (read text rest)
unfolding read step escape_byte escape_code
read-plain c rest e = ground (arith, join_nil (join (c ∷ []) (read text rest)))

hexdig-is_hex : (d : ℕ) → d < 16 → is_hex (get_or hexdig d 0) ≡ true
hexdig-is_hex d h = each_digit-at (λ x. is_hex (get_or hexdig x 0)) 15 d (omega arith) refl

first_digit : (c : ℕ) → is_hex c ≡ true → step hex c ≡ some ([], digits (digit_value c))
unfolding step
first_digit c e = rw (step, e) refl

later_digit :
    (v c : ℕ) → is_hex c ≡ true → step (digits v) c ≡ some ([], digits (v * 16 + digit_value c))
unfolding step
later_digit v c e = rw (step, e) refl

read-two_digits :
    (h l : ℕ) (rest : Bytes)
    → h < 16
    → l < 16
    → read hex (get_or hexdig h 0 ∷ get_or hexdig l 0 ∷ rest) ≡ read (digits (h * 16 + l)) rest
read-two_digits h l rest small_h small_l =
    read-step hex _ (get_or hexdig h 0) [] _ (first_digit _ (hexdig-is_hex h small_h))
    ∙ (join_nil _
        ∙ (read-step (digits _) _ (get_or hexdig l 0) [] rest
              (later_digit _ _ (hexdig-is_hex l small_l))
            ∙ (join_nil _ ∙ rw (digit_value-hexdig h small_h, digit_value-hexdig l small_l) refl)))

escape_byte-coded :
    (c : ℕ)
    → is_coded c ≡ true
    → escape_byte c ≡ backslash ∷ b'x' ∷ get_or hexdig (c / 16) 0 ∷ get_or hexdig (c % 16) 0 ∷ []
unfolding escape_byte escape_code
escape_byte-coded c e = ground arith

read-coded :
    (c : ℕ) (rest : Bytes)
    → c < 256
    → is_coded c ≡ true
    → read text (escape_byte c ++ rest) ≡ read (digits c) rest
unfolding read step
read-coded c rest h e =
    let whole : c / 16 * 16 + c % 16 ≡ c = omega arith in
    rw (escape_byte-coded c e) (
      join_nil _
      ∙ (join_nil _
          ∙ (read-two_digits (c / 16) (c % 16) rest (omega arith) (omega arith)
              ∙ ap (λ v. read (digits v) rest) whole)))

-- Behind the text comes the closing quote.
abbrev sent : Bytes → Bytes
sent s = escape_loop s ++ quote ∷ []

-- A text begins with a byte that does not go on with the digits of `c`.
abbrev Front : ℕ → Bytes → Type 0
Front c s = (d : ℕ) × (rest : Bytes) × (s ≡ d ∷ rest) × ((is_coded c && is_hex d) ≡ false)

sent-Front : (c : ℕ) (s : Bytes) → IsApart (c ∷ s) → Front c (sent s)
unfolding escape_loop escape_byte
sent-Front c [] h = (quote, [], refl, ground arith)
sent-Front c (d ∷ s) h =
    elim (Bool-cases (leb 32 d && leb d 126 && not (d == backslash) && not (d == quote))) [
      | inl plain ↦ (d, sent s, rw plain refl, h.0)
      | inr other ↦
          (backslash, (escape_code d ++ escape_loop s) ++ quote ∷ [], rw other refl, ground arith)
    ]

IsApart-behind : (c : ℕ) (s : Bytes) → IsApart (c ∷ s) → IsApart s
IsApart-behind c [] h = tt
IsApart-behind c (d ∷ s) h = h.1

read-sent :
    (c : ℕ) (s : Bytes)
    → c < 256
    → IsApart (c ∷ s)
    → read text (escape_byte c ++ sent s) ≡ join (c ∷ []) (read text (sent s))
read-sent c s h apart = elim (Bool-cases (is_coded c)) [
  | inr plain ↦ read-plain c (sent s) plain
  | inl coded ↦
      let (d, rest, e, other) = sent-Front c s apart in
      let ends : is_hex d ≡ false = rw coded at other in
      read-coded c (sent s) h coded ∙ rw e (read-digits c d rest h ends)
]

read-escape_loop : (s : Bytes) → All (λ c. c < 256) s → IsApart s → read text (sent s) ≡ some s
unfolding escape_loop read step
read-escape_loop [] h apart = refl
read-escape_loop (c ∷ s) h apart =
    rw append_assoc
      (read-sent c s h.0 apart ∙ rw (read-escape_loop s h.1 (IsApart-behind c s apart)) refl)

-- If no byte that is written with `\x` stands in front of a hexadecimal digit, then a reader of the string
-- literals of C++, where `\x` takes all the digits that follow, reads the escaped form of any bytes as those.
pub literal-escape : (s : Bytes) → All (λ c. c < 256) s → IsApart s → literal (escape s) ≡ some s
unfolding literal escape
literal-escape s h apart = read-escape_loop s h apart
