-- ===== src/Http/HeaderBody.antt =====
-- `HTTPHeaderBody` of lib/include/http.hpp: the readers over `AsyncFileBuffer`, and the writers.
pub mod Buffered
pub mod Ends
pub mod Body
pub mod Fields
pub mod Sent
pub mod Written
use coroutine_http_server.Prelude.{
  ℕ, zero, suc, ◌+◌, Bool, true, false, not, ◌&&◌, ◌||◌, Option, none, some, List, [], ◌∷◌, ◌++◌,
  ◌==◌, if◌then◌else◌, Bytes, codes, find, take, drop, is_empty, length, replicate, back,
}
use coroutine_http_server.Prelude.Result.{
  Result, ok, throws, runtime_error, length_error, Exception,
}
use coroutine_http_server.Prelude.Decimal.{to_string, ℤ, pos, negsuc, stoi}
use coroutine_http_server.Utility.Ctype.{isalnum, isspace}
use coroutine_http_server.Utility.Compare.{equal}
use coroutine_http_server.Http.Headers.{Headers, insert_or_assign, find_header, content_length}
use coroutine_http_server.Io.Outcome
use coroutine_http_server.Io.Outcome.{Outcome, ◌>>=◌}
use coroutine_http_server.Io.IStream.{IStream, getline, available}
use coroutine_http_server.Io.OStream.{OStream, puts}
use coroutine_http_server.Io.OStream.Session.{Call, text, char, calls}

-- An `AsyncFileBuffer`: the stream that is read and the stream that is written.
pub record Buffer : Type 0 where
  pub reader : IStream
  pub writer : OStream

abbrev pub crlf : Bytes
crlf = 13 ∷ 10 ∷ []

abbrev pub colon : ℕ
colon = 58

-- The test of the loop over the name.
abbrev pub is_name_char : ℕ → Bool
is_name_char ch = isalnum ch || ch == b'_' || ch == b'-'

unfoldable pub is_name : Bytes → Bool
is_name [] = true
is_name (ch ∷ s) = is_name_char ch && is_name s

-- `while (j < size && isspace(line[j])) ++j`, and the substring from `j`
unfoldable pub skip_spaces : Bytes → Bytes
skip_spaces [] = []
skip_spaces (c ∷ s) = let rest = skip_spaces s in if isspace c then rest else c ∷ s

-- `while (!s.empty() && isspace(s.back())) s.pop_back()`
unfoldable pub trim_back : Bytes → Bytes
trim_back [] = []
trim_back (c ∷ s) = let rest = trim_back s in if is_empty rest && isspace c then [] else c ∷ rest

-- One header line: the name and the value.
unfoldable pub parse_header : Bytes → Result (Bytes × Bytes)
parse_header line = elim (find colon line) [
  | none ↦ throws (runtime_error "invalid response: cannot find \":\"\n")
  | some i ↦
      let field_name = take i line in
      let field_value = trim_back (skip_spaces (drop (i + 1) line)) in
      if not (is_name field_name)
      then throws (runtime_error "invalid response: get field name ")
      else if is_empty field_value
      then throws (runtime_error "invalid response: empty field value\n")
      else ok (field_name, field_value)
]

-- An exception of code that does no input or output.
abbrev pub lift {ℓ} : {A : Type ℓ} → Result A → Outcome A
lift (ok a) = Outcome.done a
lift (throws e) = Outcome.throws e

abbrev pub no_headers : Headers → Bool
no_headers [] = true
no_headers (_ ∷ _) = false

-- The loop of `read_from` over the header lines; the fuel counts them.
unfoldable pub read_headers : ℕ → IStream → Headers → Outcome (IStream × Headers)
read_headers zero f headers = Outcome.exhausted
read_headers (suc fuel) f headers = do
  (line, f') ← getline crlf f
  elim (not (no_headers headers) && is_empty line) [
    | true ↦ Outcome.done (f', headers)
    | false ↦ do
      (name, value) ← lift (parse_header line)
      read_headers fuel f' (insert_or_assign name value headers)
  ]

-- `body.resize(len)` on an empty body
unfoldable pub resize : ℤ → Result Bytes
resize (pos n) = ok (replicate n 0)
resize (negsuc n) = throws (length_error "basic_string::_M_replace_aux")

-- The end of `read_from`: the body is made of zeros, and is written to the peer.
unfoldable pub read_body : OStream → Headers → Outcome (OStream × Bytes)
unfolding resize
read_body g headers = elim (find_header content_length headers) [
  | none ↦ Outcome.done (g, [])
  | some v ↦ do
    len ← lift (stoi v)
    body ← lift (resize len)
    g' ← puts body g
    Outcome.done (g', body)
]

-- `read_from` over `AsyncFileBuffer`, with the headers and the body cleared before.
unfoldable pub read_from : Buffer → Outcome (Buffer × Headers × Bytes)
unfolding read_headers read_body
read_from b = do
  (f, headers) ← read_headers (suc (available b.reader)) b.reader []
  (g, body) ← read_body b.writer headers
  Outcome.done (record { reader = f; writer = g }, headers, body)

abbrev pub puts_if : Bytes → List Call → List Call
puts_if line_start rest = if is_empty line_start then rest else text line_start ∷ rest

-- The loop of `write_to` over the headers, in front of the calls that follow it.
unfoldable pub header_calls : Bytes → Headers → List Call → List Call
header_calls line_start [] rest = rest
header_calls line_start ((k, v) ∷ headers) rest =
    let later = header_calls line_start headers rest in
    if equal k content_length
    then later
    else puts_if line_start (text k ∷ text (codes ": ") ∷ text v ∷ text crlf ∷ later)

-- The loop over the lines of the body; `part` is what has been read of the current one.
unfoldable pub body_lines : Bytes → Bytes → Bytes → List Call
body_lines line_start part [] = if is_empty part then [] else text part ∷ []
body_lines line_start part (c ∷ sv) = elim (c == 10) [
  | true ↦ text part ∷ char 10 ∷ text line_start ∷ body_lines line_start [] sv
  | false ↦ body_lines line_start (part ++ c ∷ []) sv
]

unfoldable pub body_calls : Bytes → Bytes → List Call
unfolding body_lines
body_calls line_start [] = []
body_calls line_start (c ∷ body) =
    if is_empty line_start
    then text (c ∷ body) ∷ []
    else text line_start ∷ body_lines line_start [] (c ∷ body)

unfoldable pub length_calls : Bytes → Bytes → List Call → List Call
length_calls line_start [] rest = rest
length_calls line_start (c ∷ body) rest =
    puts_if line_start
      (text (codes "Content-Length: ") ∷ text (to_string (length (c ∷ body))) ∷ text crlf ∷ rest)

-- `write_to` over `AsyncFileBuffer`: the calls that it makes, in order.
unfoldable pub write_to : Headers → Bytes → Bytes → List Call
unfolding header_calls length_calls body_calls
write_to headers body line_start =
    header_calls line_start headers
      (length_calls line_start body (puts_if line_start (text crlf ∷ body_calls line_start body)))

-- The loop of `append_string` over the headers.
unfoldable pub append_headers : Bytes → Headers → Bytes
append_headers s [] = s
append_headers s ((k, v) ∷ headers) =
    append_headers (if equal k content_length then s else (((s ++ k) ++ codes ": ") ++ v) ++ crlf)
      headers

unfoldable pub append_string : Bytes → Headers → Bytes → Bytes
unfolding append_headers
append_string s headers body =
    let s = append_headers s headers in
    let s =
      (if is_empty body
        then s
        else ((s ++ codes "Content-Length: ") ++ to_string (length body)) ++ crlf) in
    (s ++ crlf) ++ body
