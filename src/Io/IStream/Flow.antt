-- ===== src/Io/IStream/Flow.antt =====
-- The bytes that an `AsyncIStreamBase` of lib/include/aio.hpp will give out, and how they end.
use coroutine_http_server.Prelude.{
  ℕ, zero, suc, ◌+◌, ◌-◌, ◌≤◌, ◌<◌, true, false, [], ◌∷◌, ◌++◌, ◌==◌, ◌≡◌, refl, ◌⊎◌, arith,
  if◌then◌else◌, Bytes, take, drop, length, take-append-drop, length-take, length-drop,
  append_assoc, Bool-cases, inl, inr,
}
use coroutine_http_server.Prelude.Result.{eof_exception, syscall_error}
use coroutine_http_server.Io.Outcome.{Outcome, done, throws, waits}
use coroutine_http_server.Io.File.{
  Input, SysRead, ready, failed, epollin, epollerr_hup, eagain, has_bits, leave, read,
}
use coroutine_http_server.Io.IStream.{IStream, in_kernel}

-- What ends the bytes of a stream.
pub data Ending : Type 0 where
  -- The read gives no byte, and the stream throws.
  eof : Ending
  -- The system call fails, and the read throws.
  error : Ending
  -- No event comes.
  silence : Ending

pub record Flow : Type 0 where
  pub bytes : Bytes
  pub ending : Ending

abbrev pub prepend : Bytes → Flow → Flow
prepend xs w = record w { bytes = xs ++ w.bytes }

abbrev pub none_left : Ending → Flow
none_left e = record { bytes = []; ending = e }

-- What a wake-up with bytes, or with none, gives in front of the rest.
abbrev flow_ready : Bytes → Flow → Flow
flow_ready [] rest = none_left eof
flow_ready (c ∷ xs) rest = prepend (c ∷ xs) rest

abbrev flow_call : SysRead → Flow → Flow
flow_call (ready xs) rest = flow_ready xs rest
flow_call (failed err) rest = if err == eagain then none_left eof else none_left error

unfoldable pub kernel_flow : Input → Flow
kernel_flow [] = none_left silence
kernel_flow (w ∷ input) =
    if has_bits w.mask epollerr_hup
    then none_left eof
    else if has_bits w.mask epollin
    then flow_call w.call (kernel_flow input)
    else none_left eof

abbrev pub pending : IStream → Bytes
pending f = take (f.end - f.start) (drop f.start f.buffer)

abbrev pub flow : IStream → Flow
flow f = prepend (pending f) (kernel_flow f.input)

-- A read of one byte, on the flow.
abbrev pub at_end {ℓ} : {A : Type ℓ} → Ending → Outcome A
at_end eof = throws (eof_exception "Read EOF\n")
at_end error = throws (syscall_error "read")
at_end silence = waits

abbrev pub next_from : Bytes → Ending → Outcome (ℕ × Flow)
next_from [] e = at_end e
next_from (c ∷ xs) e = done (c, record { bytes = xs; ending = e })

abbrev pub next : Flow → Outcome (ℕ × Flow)
next w = next_from w.bytes w.ending

-- The ways in which a read of at most `size` bytes ends.
abbrev pub ReadCases : ℕ → Input → Outcome (Bytes × Input) → Flow → Type 0
ReadCases size input res w =
    ((c : ℕ) × (xs : Bytes) × (input' : Input) × (res ≡ done (c ∷ xs, input'))
      × (length (c ∷ xs) ≤ size)
      × (w ≡ prepend (c ∷ xs) (kernel_flow input'))
      × (in_kernel input ≡ length (c ∷ xs) + in_kernel input'))
    ⊎ ((input' : Input) × (res ≡ done ([], input')) × (w ≡ none_left eof))
    ⊎ ((res ≡ throws (syscall_error "read")) × (w ≡ none_left error))
    ⊎ ((res ≡ waits) × (w ≡ none_left silence))

-- What is left in the kernel flows behind what is read.
kernel_flow-leave :
    (mask : ℕ) (xs : Bytes) (input : Input)
    → has_bits mask epollerr_hup ≡ false
    → has_bits mask epollin ≡ true
    → kernel_flow (leave mask xs input) ≡ prepend xs (kernel_flow input)
unfolding kernel_flow
kernel_flow-leave mask [] input h k = refl
kernel_flow-leave mask (c ∷ xs) input h k = rw (h, k)

in_kernel-leave :
    (mask : ℕ) (xs : Bytes) (input : Input)
    → in_kernel (leave mask xs input) ≡ length xs + in_kernel input
in_kernel-leave mask [] input = omega arith
in_kernel-leave mask (c ∷ xs) input = refl

read-ready :
    (size mask : ℕ) (xs : Bytes) (input : Input)
    → 0 < size
    → has_bits mask epollerr_hup ≡ false
    → has_bits mask epollin ≡ true
    → ReadCases size
        (record { mask = mask; call = ready xs } ∷ input)
        (read size (record { mask = mask; call = ready xs } ∷ input))
        (kernel_flow (record { mask = mask; call = ready xs } ∷ input))
unfolding read kernel_flow
read-ready (suc size) mask [] input h e k = inr (inl (input, rw (e, k), rw (e, k)))
read-ready (suc size) mask (c ∷ xs) input h e k = inl (
  c,
  take size xs,
  leave mask (drop size xs) input,
  rw (e, k),
  omega (arith, length-take size xs),
  rw (e, k)
      (rw (kernel_flow-leave mask (drop size xs) input e k)
        (simp (← append_assoc, take-append-drop))),
  omega
      (arith, in_kernel-leave mask (drop size xs) input, length-take size xs, length-drop size xs),
)
read-ready zero mask xs input h e k = elim h [ ]

read-call :
    (size mask : ℕ) (call : SysRead) (input : Input)
    → 0 < size
    → ReadCases size
        (record { mask = mask; call = call } ∷ input)
        (read size (record { mask = mask; call = call } ∷ input))
        (kernel_flow (record { mask = mask; call = call } ∷ input))
unfolding read kernel_flow
read-call size mask call input h = elim (Bool-cases (has_bits mask epollerr_hup)) [
  | inl hup ↦ inr (inl (input, rw hup, rw hup))
  | inr alive ↦ elim (Bool-cases (has_bits mask epollin)) [
    | inr unknown ↦ inr (inl (input, rw (alive, unknown), rw (alive, unknown)))
    | inl readable ↦ by_call call alive readable
  ]
]
  where
    by_call :
        (call : SysRead)
        → has_bits mask epollerr_hup ≡ false
        → has_bits mask epollin ≡ true
        → ReadCases size
            (record { mask = mask; call = call } ∷ input)
            (read size (record { mask = mask; call = call } ∷ input))
            (kernel_flow (record { mask = mask; call = call } ∷ input))
    by_call (ready xs) e k = read-ready size mask xs input h e k
    by_call (failed err) e k = elim (Bool-cases (err == eagain)) [
      | inl again ↦ inr (inl (input, rw (e, k, again), rw (e, k, again)))
      | inr other ↦ inr (inr (inl (rw (e, k, other), rw (e, k, other))))
    ]

pub read-cases :
    (size : ℕ) (input : Input)
    → 0 < size
    → ReadCases size input (read size input) (kernel_flow input)
unfolding read kernel_flow
read-cases size [] h = inr (inr (inr (refl, refl)))
read-cases size (w ∷ input) h = read-call size w.mask w.call input h
