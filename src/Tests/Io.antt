-- ===== src/Tests/Io.antt =====
-- The streams of lib/include/aio.hpp, with a kernel that gives and takes a few bytes at a time.
use coroutine_http_server.Prelude.{[], ◌∷◌, ◌++◌, ◌≡◌, refl, arith}
use coroutine_http_server.Io.Outcome.{done, ◌>>=◌}
use coroutine_http_server.Io.File.{Input, Output, ready, takes, epollin, epollout, has_bits}
use coroutine_http_server.Io.IStream.{IStream, istream, getline}
use coroutine_http_server.Io.IStream.Flow.{Flow, silence, prepend, none_left, kernel_flow}
use coroutine_http_server.Io.IStream.Getchar
use coroutine_http_server.Io.IStream.Getchar.{GetcharCases, getchar-cases}
use coroutine_http_server.Io.IStream.Lines.{Ends, getline-line, getline-lossy}
use coroutine_http_server.Io.OStream.{OStream, ostream, flush, append}
use coroutine_http_server.Io.OStream.Written
use coroutine_http_server.Io.OStream.Written.{written, flush-written}
use coroutine_http_server.Io.OStream.Session.{text, char, calls, texts, session}

-- "A\r\nB", in two parts.
abbrev input : Input
input =
    record { mask = epollin; call = ready (65 ∷ 13 ∷ []) }
    ∷ record { mask = epollin; call = ready (10 ∷ 66 ∷ []) }
    ∷ []

abbrev reader : IStream
reader = istream 4 input

reader-IsValid : Getchar.IsValid reader
reader-IsValid = record {
  ordered = omega arith;
  in_bounds = omega arith;
  sized = refl;
  roomy = omega arith;
}

abbrev behind : Flow
behind = none_left silence

getline-line_example : Ends (getline (13 ∷ 10 ∷ []) reader) (65 ∷ []) (prepend (66 ∷ []) behind)
unfolding kernel_flow has_bits
getline-line_example =
    getline-line reader (65 ∷ []) 13 (10 ∷ []) (66 ∷ []) behind (refl, tt)
      (record { valid = reader-IsValid; gives = refl })

abbrev short_reader : IStream
short_reader = istream 4 (record { mask = epollin; call = ready (65 ∷ 66 ∷ []) } ∷ [])

-- "\rAB\r\n": the A is lost.
abbrev torn_reader : IStream
torn_reader = istream 8 (record { mask = epollin; call = ready (13 ∷ 65 ∷ 66 ∷ 13 ∷ 10 ∷ []) } ∷ [])

getline-lossy_example : Ends (getline (13 ∷ 10 ∷ []) torn_reader) (13 ∷ 66 ∷ []) (prepend [] behind)
unfolding kernel_flow has_bits
getline-lossy_example =
    getline-lossy torn_reader [] (66 ∷ []) [] 65 behind tt refl (refl, tt)
      (record {
        valid = record {
          ordered = omega arith;
          in_bounds = omega arith;
          sized = refl;
          roomy = omega arith;
        };
        gives = refl;
      })

abbrev output : Output
output =
    record { mask = epollout; call = takes 1 }
    ∷ record { mask = epollout; call = takes 2 }
    ∷ record { mask = epollout; call = takes 9 }
    ∷ []

abbrev writer : OStream
writer = ostream 2 output

writer-IsValid : Written.IsValid writer
writer-IsValid = record { in_bounds = omega arith; sized = refl; roomy = omega arith }

session_example :
    (f' : OStream) × (calls (text (65 ∷ 66 ∷ []) ∷ char 67 ∷ []) writer >>= flush ≡ done f')
    × (f'.sent ≡ written writer ++ texts (text (65 ∷ 66 ∷ []) ∷ char 67 ∷ []))
    × (f'.end ≡ 0)
unfolding has_bits
session_example = session (text (65 ∷ 66 ∷ []) ∷ char 67 ∷ []) writer writer-IsValid (
  ((refl, refl, (0, refl)), ((refl, refl, (1, refl)), ((refl, refl, (8, refl)), tt))),
  omega arith,
)

abbrev filled_writer : OStream
filled_writer = append (65 ∷ []) writer

filled-IsValid : Written.IsValid filled_writer
filled-IsValid = record { in_bounds = omega arith; sized = refl; roomy = omega arith }

abbrev flushed_writer : OStream
flushed_writer = record {
  buffer = 65 ∷ 0 ∷ [];
  capacity = 2;
  end = 0;
  output =
      record { mask = epollout; call = takes 2 } ∷ record { mask = epollout; call = takes 9 } ∷ [];
  sent = 65 ∷ [];
}

abbrev put_writer : OStream
put_writer = record {
  buffer = 65 ∷ 0 ∷ [];
  capacity = 2;
  end = 0;
  output = record { mask = epollout; call = takes 9 } ∷ [];
  sent = 65 ∷ 66 ∷ 67 ∷ [];
}
