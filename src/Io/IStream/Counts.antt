-- ===== src/Io/IStream/Counts.antt =====
-- `getn` of lib/include/aio.hpp, in terms of the flow of the stream.
use coroutine_http_server.Prelude.{
  [], ◌∷◌, ◌++◌, refl, ap, ◌∙◌, Bytes, length, append_assoc, append-nil,
}
use coroutine_http_server.Io.Outcome.{done}
use coroutine_http_server.Io.IStream.{IStream, getn_from, getn}
use coroutine_http_server.Io.IStream.Flow.{Flow, prepend}
use coroutine_http_server.Io.IStream.Lines.{Flows, Ends, getchar-First}

getn_from-Ends :
    (xs s : Bytes) (f : IStream) (w : Flow)
    → Flows f (prepend xs w)
    → Ends (getn_from (length xs) s f) (s ++ xs) w
unfolding getn_from
getn_from-Ends [] s f w h = (f, rw append-nil refl, h)
getn_from-Ends (c ∷ xs) s f w h =
    let (f', got, h', _) = getchar-First f c xs w h in
    let (g, rest, hg) = getn_from-Ends xs (s ++ c ∷ []) f' w h' in
    (
      g,
      rw (got, getn_from) (rest ∙ ap (λ (t : Bytes). done (t, g)) (append_assoc s (c ∷ []) xs)),
      hg,
    )

-- However the kernel delivers the bytes, `getn` for as many bytes as stand in front of the rest of the
-- flow gives those bytes, and leaves the rest.
pub getn-Ends :
    (f : IStream) (xs : Bytes) (w : Flow) → Flows f (prepend xs w) → Ends (getn (length xs) f) xs w
unfolding getn
getn-Ends f xs w h = getn_from-Ends xs [] f w h
