-- ===== src/Io/OStream/Session.antt =====
-- Sequences of calls on an `AsyncOStreamBase` of lib/include/aio.hpp.
use coroutine_http_server.Prelude.{
  ℕ, ◌+◌, List, [], ◌∷◌, ◌++◌, ◌≡◌, refl, sym, ap, ◌∙◌, arith, Bytes, length, append_assoc,
  append-nil, length-append,
}
use coroutine_http_server.Io.Outcome.{Outcome, done, ◌>>=◌, >>=-eq-done}
use coroutine_http_server.Io.OStream.{OStream, flush, putchar, puts}
use coroutine_http_server.Io.OStream.Written.{IsValid, written, flush-written, written-drained}
use coroutine_http_server.Io.OStream.Put.{putchar-written, puts-written}
use coroutine_http_server.Io.OStream.Willing.{
  IsReady, ReturnsReady, flush-returns, putchar-returns, puts-returns,
}

-- A call on the stream.
pub data Call : Type 0 where
  text : Bytes → Call
  char : ℕ → Call
  flushed : Call

unfoldable pub call : Call → OStream → Outcome OStream
call (text sv) f = puts sv f
call (char ch) f = putchar ch f
call flushed f = flush f

unfoldable pub calls : List Call → OStream → Outcome OStream
unfolding call
calls [] f = done f
calls (c ∷ cs) f = do f' ← call c f; calls cs f'

-- What a call writes, and what all of them write.
abbrev pub text_of : Call → Bytes
text_of (text sv) = sv
text_of (char ch) = ch ∷ []
text_of flushed = []

abbrev pub texts : List Call → Bytes
texts [] = []
texts (c ∷ cs) = text_of c ++ texts cs

pub call-written :
    (c : Call) (f f' : OStream)
    → IsValid f
    → call c f ≡ done f'
    → IsValid f' × (written f' ≡ written f ++ text_of c)
unfolding call
call-written (text sv) f f' v e = puts-written sv f f' v e
call-written (char ch) f f' v e = putchar-written ch f f' v e
call-written flushed f f' v e =
    let (v', sent, empty, _) = flush-written f f' v e in
    (v', written-drained f' empty ∙ (sent ∙ sym (append-nil (written f))))

done-injective : {f g : OStream} → done f ≡ done g → f ≡ g
done-injective e = cc

pub calls-written :
    (cs : List Call) (f f' : OStream)
    → IsValid f
    → calls cs f ≡ done f'
    → IsValid f' × (written f' ≡ written f ++ texts cs)
unfolding calls
calls-written [] f f' v e = rw (← (done-injective e)) (v, sym (append-nil (written f)))
calls-written (c ∷ cs) f f' v e =
    let (g, first, rest) = >>=-eq-done (call c f) _ e in
    let (v', one) = call-written c f g v first in
    let (v'', all) = calls-written cs g f' v' rest in
    (
      v'',
      all
          ∙ (ap (λ (t : Bytes). t ++ texts cs) one
              ∙ append_assoc (written f) (text_of c) (texts cs)),
    )

call-returns :
    (c : Call) (f : OStream) (n : ℕ)
    → IsValid f
    → IsReady f (length (text_of c) + n)
    → ReturnsReady (call c f) n
unfolding call
call-returns (text sv) f n v ready = puts-returns sv f n v ready
call-returns (char ch) f n v ready = putchar-returns ch f n v (ready.0, omega (arith, ready.1))
call-returns flushed f n v ready = flush-returns f n (ready.0, omega (arith, ready.1))

calls-returns :
    (cs : List Call) (f : OStream)
    → IsValid f
    → IsReady f (length (texts cs))
    → ReturnsReady (calls cs f) 0
unfolding calls
calls-returns [] f v ready = (f, refl, ready)
calls-returns (c ∷ cs) f v ready =
    let (g, e, ready') =
      call-returns c f (length (texts cs)) v
        (ready.0, omega (arith, ready.1, length-append (text_of c) (texts cs))) in
    let (f', e', ready'') = calls-returns cs g ((call-written c f g v e).0) ready' in
    (f', rw (e, calls) e', ready'')

-- Any calls on a stream followed by a flush, with a kernel that takes at least a byte at each of as many
-- wake-ups as there are bytes, return, and then the kernel has exactly what was written before and the
-- texts of the calls, in order, and the buffer is empty.
pub session :
    (cs : List Call) (f : OStream)
    → IsValid f
    → IsReady f (length (texts cs))
    → (f' : OStream) × (calls cs f >>= flush ≡ done f')
      × (f'.sent ≡ written f ++ texts cs)
      × (f'.end ≡ 0)
session cs f v ready =
    let (g, e, ready') = calls-returns cs f v ready in
    let (v', all) = calls-written cs f g v e in
    let (f', e', _) = flush-returns g 0 ready' in
    let (_, sent, empty, _) = flush-written g f' v' e' in (f', rw e e', sent ∙ all, empty)
