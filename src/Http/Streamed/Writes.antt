-- ===== src/Http/Streamed/Writes.antt =====
-- The writers over `AsyncFileStream` against those over `AsyncFileBuffer`, of lib/include/http.hpp.
use coroutine_http_server.Prelude.{
  ℕ, ◌≡◌, refl, sym, ap, ◌∙◌, List, [], ◌∷◌, ◌++◌, ◌==◌, append_assoc, Bytes, codes, is_empty,
  length, replicate, if◌then◌else◌, Bool-cases, inl, inr,
}
use coroutine_http_server.Prelude.Decimal.{to_string}
use coroutine_http_server.Utility.Compare.{equal}
use coroutine_http_server.Http.Headers.{Headers, content_length}
use coroutine_http_server.Http.HeaderBody.{
  header_calls, length_calls, body_lines, body_calls, write_to, puts_if, crlf,
}
use coroutine_http_server.Http.Streamed.{
  add_headers, head_of, body_prints, prints_of, print_all, write_message,
}
use coroutine_http_server.Io.Outcome.{done}
use coroutine_http_server.Io.Stream.{Putc, taken}
use coroutine_http_server.Io.Stream.Prints.{print-taken}
use coroutine_http_server.Io.OStream.Session.{Call, text, texts}

pub concat : List Bytes → Bytes
concat [] = []
concat (s ∷ ss) = s ++ concat ss

puts_if-texts : (ls : Bytes) (rest : List Call) → texts (puts_if ls rest) ≡ ls ++ texts rest
puts_if-texts [] rest = refl
puts_if-texts (c ∷ ls) rest = refl

regroup :
    (s ls k colon v end rest : Bytes)
    → (((((s ++ ls) ++ k) ++ colon) ++ v) ++ end) ++ rest
      ≡ s ++ (ls ++ (k ++ (colon ++ (v ++ (end ++ rest)))))
regroup s ls k colon v end rest = simp (append_assoc)

add_headers-texts :
    (ls s : Bytes) (headers : Headers) (rest : List Call)
    → add_headers ls s headers ++ texts rest ≡ s ++ texts (header_calls ls headers rest)
unfolding add_headers header_calls
add_headers-texts ls s [] rest = refl
add_headers-texts ls s ((k, v) ∷ headers) rest = elim (Bool-cases (equal k content_length)) [
  | inl e ↦ rw (add_headers, header_calls, e) (add_headers-texts ls s headers rest)
  | inr e ↦
      rw (add_headers, header_calls, e)
        (add_headers-texts ls (((((s ++ ls) ++ k) ++ codes ": ") ++ v) ++ crlf) headers rest
          ∙ (regroup s ls k (codes ": ") v crlf (texts (header_calls ls headers rest))
              ∙ ap (λ t. s ++ t) (sym (puts_if-texts ls _))))
]

body_prints-texts :
    (ls part sv : Bytes) → concat (body_prints ls part sv) ≡ texts (body_lines ls part sv)
unfolding body_prints body_lines concat
body_prints-texts ls [] [] = refl
body_prints-texts ls (p ∷ part) [] = refl
body_prints-texts ls part (c ∷ sv) = elim (Bool-cases (c == 10)) [
  | inl e ↦
      rw (body_prints, body_lines, e)
        (ap (λ t. part ++ 10 ∷ (ls ++ t)) (body_prints-texts ls [] sv))
  | inr e ↦ rw (body_prints, body_lines, e) (body_prints-texts ls (part ++ c ∷ []) sv)
]

end_texts :
    (ls a : Bytes) (rest : List Call)
    → ((a ++ ls) ++ crlf) ++ texts rest ≡ a ++ texts (puts_if ls (text crlf ∷ rest))
end_texts ls a rest = rw (puts_if-texts ls (text crlf ∷ rest)) (simp (append_assoc))

length_texts :
    (ls a n : Bytes) (rest : List Call)
    → ((((a ++ ls) ++ codes "Content-Length: ") ++ n) ++ crlf) ++ texts rest
      ≡ a ++ texts (puts_if ls (text (codes "Content-Length: ") ∷ text n ∷ text crlf ∷ rest))
length_texts ls a n rest =
    rw (puts_if-texts ls (text (codes "Content-Length: ") ∷ text n ∷ text crlf ∷ rest))
      (simp (append_assoc))

body_texts :
    (ls : Bytes) (c : ℕ) (body : Bytes)
    → concat (if is_empty ls then (c ∷ body) ∷ [] else ls ∷ body_prints ls [] (c ∷ body))
      ≡ texts (body_calls ls (c ∷ body))
unfolding body_calls concat
body_texts [] c body = refl
body_texts (d ∷ ls) c body = ap (λ t. (d ∷ ls) ++ t) (body_prints-texts (d ∷ ls) [] (c ∷ body))

-- The strings that `write_to` prints are, put together, the bytes of its calls on the buffer.
prints_of-texts :
    (headers : Headers) (body ls : Bytes)
    → concat (prints_of headers body ls) ≡ texts (write_to headers body ls)
unfolding prints_of head_of write_to length_calls body_calls concat
prints_of-texts headers [] ls =
    end_texts ls (add_headers ls [] headers) []
    ∙ add_headers-texts ls [] headers (puts_if ls (text crlf ∷ []))
prints_of-texts headers (c ∷ body) ls =
    let n = to_string (length (c ∷ body)) in
    let after = puts_if ls (text crlf ∷ body_calls ls (c ∷ body)) in
    let a = add_headers ls [] headers in
    let a' = (((a ++ ls) ++ codes "Content-Length: ") ++ n) ++ crlf in
    ap (λ t. ((a' ++ ls) ++ crlf) ++ t) (body_texts ls c body)
    ∙ (end_texts ls a' (body_calls ls (c ∷ body))
        ∙ (length_texts ls a n after
            ∙ add_headers-texts ls [] headers
                (puts_if ls (text (codes "Content-Length: ") ∷ text n ∷ text crlf ∷ after))))

-- A kernel that takes so many bytes at once.
abbrev pub takes_all : Bytes → List Putc → List Putc
takes_all s later = replicate (length s) taken ++ later

takes_all-append :
    (s t : Bytes) (later : List Putc) → takes_all (s ++ t) later ≡ takes_all s (takes_all t later)
takes_all-append [] t later = refl
takes_all-append (c ∷ s) t later = ap (◌∷◌ taken) (takes_all-append s t later)

print_all-concat :
    (ss : List Bytes) (later : List Putc)
    → print_all ss (takes_all (concat ss) later) ≡ done (concat ss, later)
unfolding print_all concat
print_all-concat [] later = refl
print_all-concat (s ∷ ss) later =
    rw
      (
        takes_all-append s (concat ss) later,
        print-taken s (takes_all (concat ss) later),
        print_all-concat ss later,
      )
      refl

-- Where `putc` takes every byte at once, a message that is written over `AsyncFileStream` with any
-- line prefix ends without an exception, and puts out its first line and then the bytes that the
-- writer of headers and body over `AsyncFileBuffer` puts on its stream.
pub write_message-texts :
    (line : Bytes) (headers : Headers) (body ls : Bytes) (later : List Putc)
    → let bytes = line ++ texts (write_to headers body ls) in
      write_message line headers body ls (takes_all bytes later) ≡ done (bytes, later)
unfolding write_message
write_message-texts line headers body ls later =
    let same = prints_of-texts headers body ls in
    rw
      (
        takes_all-append line (texts (write_to headers body ls)) later,
        print-taken line (takes_all (texts (write_to headers body ls)) later),
        ← same,
        print_all-concat (prints_of headers body ls) later,
      )
      refl
