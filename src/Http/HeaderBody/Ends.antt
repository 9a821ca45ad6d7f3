-- ===== src/Http/HeaderBody/Ends.antt =====
-- The reader of headers and body over `AsyncFileBuffer`, of lib/include/http.hpp, ends: the fuel of the
-- loop over the header lines is enough.
use coroutine_http_server.Prelude.{
  ℕ, zero, suc, ◌<◌, arith, [], ◌&&◌, not, inl, inr, Bool-cases, Option-cases, is_empty,
}
use coroutine_http_server.Prelude.Result.{Result, ok, throws}
use coroutine_http_server.Prelude.Decimal.{stoi}
use coroutine_http_server.Http.Headers.{Headers, insert_or_assign, find_header, content_length}
use coroutine_http_server.Http.HeaderBody.{
  Buffer, crlf, lift, parse_header, no_headers, read_headers, read_body, resize, read_from,
}
use coroutine_http_server.Io.Outcome.{IsFueled, >>=-IsFueled, done-IsFueled}
use coroutine_http_server.Io.IStream.{IStream, getline, available}
use coroutine_http_server.Io.IStream.Getchar
use coroutine_http_server.Io.IStream.Ends.{getline-EndsBelow}
use coroutine_http_server.Io.OStream.{OStream, puts}
use coroutine_http_server.Io.OStream.Written
use coroutine_http_server.Io.OStream.Ends.{puts-IsFueled}

pub lift-IsFueled {ℓ} : {A : Type ℓ} (r : Result A) → IsFueled (lift r)
lift-IsFueled (ok a) = λ e. cc
lift-IsFueled (throws x) = λ e. cc

read_headers-IsFueled :
    (fuel : ℕ) (f : IStream) (headers : Headers)
    → Getchar.IsValid f
    → available f < fuel
    → IsFueled (read_headers fuel f headers)
unfolding read_headers
read_headers-IsFueled zero f headers v h = elim h [ ]
read_headers-IsFueled (suc fuel) f headers v h =
    let (fueled, below) = getline-EndsBelow crlf f v in
    >>=-IsFueled (getline crlf f) _ fueled λ (line, f') e.
      let (v', less) = below line f' e in
      elim (Bool-cases (not (no_headers headers) && is_empty line)) [
        | inl last ↦ rw last (done-IsFueled _)
        | inr more ↦ rw more (
            >>=-IsFueled (lift (parse_header line)) _ (lift-IsFueled (parse_header line)) λ p _.
              read_headers-IsFueled fuel f' (insert_or_assign p.0 p.1 headers) v' (omega arith))
      ]

read_body-IsFueled :
    (g : OStream) (headers : Headers) → Written.IsValid g → IsFueled (read_body g headers)
unfolding read_body
read_body-IsFueled g headers v = elim (Option-cases (find_header content_length headers)) [
  | inl e ↦ rw (read_body, e) (done-IsFueled _)
  | inr (value, e) ↦
      rw (read_body, e)
        (>>=-IsFueled (lift (stoi value)) _ (lift-IsFueled (stoi value)) λ len _.
          >>=-IsFueled (lift (resize len)) _ (lift-IsFueled (resize len))
            λ body _. >>=-IsFueled (puts body g) _ (puts-IsFueled body g v) λ _ _. done-IsFueled _)
]

-- Over valid streams the reader of headers and body ends, or throws, or waits for an event that does not
-- come.
pub read_from-IsFueled :
    (b : Buffer) → Getchar.IsValid b.reader → Written.IsValid b.writer → IsFueled (read_from b)
unfolding read_from
read_from-IsFueled b v w =
    >>=-IsFueled (read_headers (suc (available b.reader)) b.reader []) _
      (read_headers-IsFueled (suc (available b.reader)) b.reader [] v (omega arith))
      λ (f, headers) _.
        >>=-IsFueled (read_body b.writer headers) _ (read_body-IsFueled b.writer headers w)
          λ _ _. done-IsFueled _
