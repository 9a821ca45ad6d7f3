-- ===== src/Http/HeaderBody/Buffered.antt =====
-- `HTTPHeaderBody::read_from` over `AsyncFileBuffer`, of lib/include/http.hpp, on header lines.
use mathlib.Core.Path.{subst}
use coroutine_http_server.Prelude.{
  ℕ, zero, suc, ◌≤◌, ◌<◌, true, false, not, ◌&&◌, ◌≡◌, refl, ap, ◌∙◌, [], ◌∷◌, ◌++◌, append_assoc,
  arith, ◌-◌, drop, length-take, All, Bytes, length, Lacks, Lacks-append, is_empty, length-append,
  codes,
}
use coroutine_http_server.Prelude.Result.{ok}
use coroutine_http_server.Utility.Ctype.{isalnum}
use coroutine_http_server.Http.Headers.{Headers, insert_or_assign, content_length}
use coroutine_http_server.Http.Headers.Order.{assign_all, assign_all_again, find_header-none}
use coroutine_http_server.Http.HeaderBody
use coroutine_http_server.Http.HeaderBody.{
  Buffer, parse_header, no_headers, crlf, read_headers, read_body, write_to, trim_back, is_name,
  is_name_char,
}
use coroutine_http_server.Http.HeaderBody.Fields.{
  IsField, AreFields, line_of_field, lines_of, field_nonempty, parse_header-field, is_name-Lacks,
}
use coroutine_http_server.Http.HeaderBody.Sent.{IsSendable}
use coroutine_http_server.Http.Streamed.HeaderLines.{
  some_header, insert_some, still, and_false, length-lines_of,
}
use coroutine_http_server.Io.Outcome.{done, ◌>>=◌}
use coroutine_http_server.Io.File.{Input, SysRead, ready, failed}
use coroutine_http_server.Utility.Compare.{equal}
use coroutine_http_server.Io.OStream.{OStream}
use coroutine_http_server.Io.IStream.{IStream, getline, available, in_kernel}
use coroutine_http_server.Io.IStream.Flow.{Flow, prepend, flow, kernel_flow, pending}
use coroutine_http_server.Io.IStream.Lines.{Flows, getline-line}

-- A line and its end are read, and the rest flows on.
pub line_read :
    (f : IStream) (line rest : Bytes) (w : Flow)
    → Lacks 13 line
    → Flows f (prepend (line ++ (crlf ++ rest)) w)
    → (f' : IStream) × (getline crlf f ≡ done (line, f')) × Flows f' (prepend rest w)
line_read f line rest w l h = getline-line f line 13 (10 ∷ []) rest w l h

field-Lacks_cr : (k v : Bytes) → IsField k v → Lacks 13 v → Lacks 13 (line_of_field k v)
unfolding isalnum
field-Lacks_cr k v f l =
    Lacks-append 13 (k ++ codes ": ") v
      (Lacks-append 13 k (codes ": ") (is_name-Lacks 13 k refl f.name) (refl, (refl, tt))) l

regroup :
    (line more rest : Bytes)
    → (line ++ (crlf ++ more)) ++ (crlf ++ rest) ≡ line ++ (crlf ++ (more ++ (crlf ++ rest)))
regroup line more rest = simp (append_assoc)

read_headers_step :
    (fuel : ℕ) (line : Bytes) (f f' : IStream) (acc : Headers) (k v : Bytes)
    → getline crlf f ≡ done (line, f')
    → is_empty line ≡ false
    → parse_header line ≡ ok (k, v)
    → read_headers (suc fuel) f acc ≡ read_headers fuel f' (insert_or_assign k v acc)
unfolding read_headers
read_headers_step fuel line f f' acc k v got some_byte parsed =
    rw (read_headers, got, ◌>>=◌, some_byte, and_false (not (no_headers acc)), parsed) refl

-- No value of a field has a carriage return.
abbrev pub OnLines : Headers → Type 0
OnLines = All (λ p. Lacks 13 p.1)

read_headers-lines :
    (fields : Headers) (fuel : ℕ) (f : IStream) (rest : Bytes) (w : Flow) (acc : Headers)
    → AreFields fields
    → OnLines fields
    → some_header fields acc ≡ true
    → length fields < fuel
    → Flows f (prepend (lines_of fields ++ (crlf ++ rest)) w)
    → (f' : IStream) × (read_headers fuel f acc ≡ done (f', assign_all fields acc))
      × Flows f' (prepend rest w)
unfolding read_headers assign_all
read_headers-lines fields zero f rest w acc a l some_one enough h = elim enough [ ]
read_headers-lines [] (suc fuel) f rest w [] a l some_one enough h = cc
read_headers-lines [] (suc fuel) f rest w (p ∷ acc) a l some_one enough h =
    let (f', got, h') = line_read f [] rest w tt h in (f', rw (got, read_headers) refl, h')
read_headers-lines ((k, v) ∷ fields) (suc fuel) f rest w acc a l some_one enough h =
    let more = lines_of fields ++ (crlf ++ rest) in
    let (f', got, h') =
      line_read f (line_of_field k v) more w (field-Lacks_cr k v a.0 l.0) (
        subst (λ t. Flows f (prepend t w)) (regroup (line_of_field k v) (lines_of fields) rest)
          h) in
    let (f'', later, h'') =
      read_headers-lines fields fuel f' rest w (insert_or_assign k v acc) a.1 l.1
        (still fields _ (insert_some k v acc)) (omega arith) h' in
    (
      f'',
      read_headers_step fuel _ f f' acc k v got (field_nonempty k v) (parse_header-field k v a.0)
          ∙ later,
      h'',
    )

wake_up-length :
    (c : SysRead) (mask : ℕ) (input : Input)
    → length (kernel_flow input).bytes ≤ in_kernel input
    → length (kernel_flow (record { mask = mask; call = c } ∷ input)).bytes
      ≤ in_kernel (record { mask = mask; call = c } ∷ input)
unfolding kernel_flow
wake_up-length (ready []) mask input h = ground arith
wake_up-length (ready (c ∷ xs)) mask input h =
    ground (arith, length-append (c ∷ xs) (kernel_flow input).bytes)
wake_up-length (failed err) mask input h = ground arith

kernel_flow-length : (input : Input) → length (kernel_flow input).bytes ≤ in_kernel input
unfolding kernel_flow
kernel_flow-length [] = omega arith
kernel_flow-length (r ∷ input) = wake_up-length r.call r.mask input (kernel_flow-length input)

-- No more flows than is there.
flow-length : (f : IStream) → length (flow f).bytes ≤ available f
flow-length f = omega (
  arith,
  length-append (pending f) (kernel_flow f.input).bytes,
  length-take (f.end - f.start) (drop f.start f.buffer),
  kernel_flow-length f.input,
)

read_body-none :
    (g : OStream) (headers : Headers)
    → All (λ p. equal p.0 content_length ≡ false) headers
    → read_body g headers ≡ done (g, [])
unfolding read_body
read_body-none g headers h = rw (read_body, find_header-none content_length headers h) refl

some_headers :
    (headers : Headers) → (no_headers headers && true) ≡ false → some_header headers [] ≡ true
some_headers [] h = cc
some_headers (p ∷ headers) h = refl

-- The header lines and the empty line behind them are read, and the writer is as it was.
pub header_body-read :
    (b : Buffer) (headers : Headers) (rest : Bytes) (w : Flow)
    → IsSendable headers []
    → OnLines headers
    → Flows b.reader (prepend (lines_of headers ++ (crlf ++ rest)) w)
    → (f : IStream) × (HeaderBody.read_from b
        ≡ done (record { reader = f; writer = b.writer }, headers, []))
      × Flows f (prepend rest w)
unfolding HeaderBody.read_from
header_body-read b headers rest w s l h =
    let some_one = some_headers headers s.some_line in
    let enough : length headers < suc (available b.reader) = omega (
      arith,
      length-lines_of headers,
      length-append (lines_of headers) (crlf ++ rest),
      length-append (lines_of headers ++ (crlf ++ rest)) w.bytes,
      flow-length b.reader,
      ap (λ (x : Flow). length x.bytes) h.gives,
    ) in
    let (f, got, h') =
      read_headers-lines headers (suc (available b.reader)) b.reader rest w [] s.are_fields l
        some_one enough h in
    (
      f,
      rw
          (
            HeaderBody.read_from,
            got,
            ◌>>=◌,
            assign_all_again headers s.is_map,
            read_body-none b.writer headers s.no_length,
          )
          refl,
      h',
    )
