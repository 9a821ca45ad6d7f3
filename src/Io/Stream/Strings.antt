-- ===== src/Io/Stream/Strings.antt =====
-- `read_string` of lib/include/epoll.hpp.
use coroutine_http_server.Prelude.{
  ℕ, zero, suc, ◌+◌, ◌≤◌, ◌<◌, not, ◌||◌, [], ◌∷◌, ◌++◌, ◌==◌, ◌≡◌, refl, arith, Bytes, take, drop,
  length, length-take, length-drop, Bool-cases, inl, inr,
}
use coroutine_http_server.Io.Outcome.{done, >>=-eq-done, IsFueled, >>=-IsFueled, done-IsFueled}
use coroutine_http_server.Io.File.{
  IoResult, Input, SysRead, ready, failed, leave, has_bits, epollerr_hup, epollin, read_file_sync,
  read_file_best_effort,
}
use coroutine_http_server.Io.IStream.{in_kernel, call_size}
use coroutine_http_server.Io.Stream.{read_chunks, read_string, next_chunk}

in_kernel-leave :
    (mask : ℕ) (xs : Bytes) (input : Input)
    → in_kernel (leave mask xs input) ≡ length xs + in_kernel input
in_kernel-leave mask [] input = omega arith
in_kernel-leave mask (c ∷ xs) input = refl

read_file_sync-in_kernel :
    (size mask : ℕ) (call : SysRead) (input : Input) (xs : Bytes) (input' : Input)
    → read_file_sync size mask call input ≡ done (xs, input')
    → length xs + in_kernel input' ≤ call_size call + in_kernel input
unfolding read_file_sync
read_file_sync-in_kernel size mask (ready ys) input xs input' e =
    let first : xs ≡ take size ys = cc in
    let second : input' ≡ leave mask (drop size ys) input = cc in
    let left = in_kernel-leave mask (drop size ys) input in
    rw (first, second) (omega (arith, left, length-take size ys, length-drop size ys))
read_file_sync-in_kernel size mask (failed err) input xs input' e = ground arith

-- A read takes what it gives off the kernel.
read-in_kernel :
    (size : ℕ) (input : Input) (res : IoResult Bytes) (input' : Input)
    → read_file_best_effort size input ≡ done (res, input')
    → length res.result + in_kernel input' ≤ in_kernel input
unfolding read_file_best_effort
read-in_kernel size [] res input' e = cc
read-in_kernel size (w ∷ input) res input' e = elim (Bool-cases (has_bits w.mask epollerr_hup)) [
  | inl hang_up ↦ ground arith
  | inr up ↦ elim (Bool-cases (has_bits w.mask epollin)) [
    | inr other ↦ ground arith
    | inl readable ↦
        let ((xs, rest), got, same) =
          >>=-eq-done (read_file_sync size w.mask w.call input) _ (rw (up, readable) at e) in
        let taken = read_file_sync-in_kernel size w.mask w.call input xs rest got in
        let first : xs ≡ res.result = cc in
        let second : rest ≡ input' = cc in rw (← first, ← second) taken
  ]
]

next_chunk-pos : (chunk : ℕ) → 0 < chunk → 0 < next_chunk chunk
next_chunk-pos chunk h = ground arith

read_file_sync-IsFueled :
    (size mask : ℕ) (call : SysRead) (input : Input)
    → IsFueled (read_file_sync size mask call input)
unfolding read_file_sync
read_file_sync-IsFueled size mask (ready xs) input = done-IsFueled _
read_file_sync-IsFueled size mask (failed err) input = ground arith

read_file-IsFueled : (size : ℕ) (input : Input) → IsFueled (read_file_best_effort size input)
unfolding read_file_best_effort
read_file-IsFueled size [] = λ e. cc
read_file-IsFueled size (w ∷ input) = elim (Bool-cases (has_bits w.mask epollerr_hup)) [
  | inl hang_up ↦ rw (read_file_best_effort, hang_up) (done-IsFueled _)
  | inr up ↦ elim (Bool-cases (has_bits w.mask epollin)) [
    | inr other ↦ rw (read_file_best_effort, up, other) (done-IsFueled _)
    | inl readable ↦
        rw (read_file_best_effort, up, readable)
          (>>=-IsFueled (read_file_sync size w.mask w.call input) _
            (read_file_sync-IsFueled size w.mask w.call input) λ _ _. done-IsFueled _)
  ]
]

read_chunks-IsFueled :
    (fuel chunk : ℕ) (s : Bytes) (input : Input)
    → 0 < chunk
    → in_kernel input < fuel
    → IsFueled (read_chunks fuel chunk s input)
unfolding read_chunks
read_chunks-IsFueled zero chunk s input h enough = elim enough [ ]
read_chunks-IsFueled (suc fuel) chunk s input h enough =
    >>=-IsFueled (read_file_best_effort chunk input) _ (read_file-IsFueled chunk input)
      λ (res, input') e. elim (Bool-cases (not (length res.result == chunk) || res.hup)) [
        | inl stop ↦ rw stop (done-IsFueled _)
        | inr more ↦
            let took = read-in_kernel chunk input res input' e in
            let full : length res.result ≡ chunk = ground arith in
            rw more (
              read_chunks-IsFueled fuel (next_chunk chunk) (s ++ res.result) input'
                (next_chunk-pos chunk h) (omega (arith, took, full)))
      ]

-- On every input, `read_string` ends, with what it has read or an exception, or waits for an event that
-- does not come: its loop does not use up its fuel.
pub read_string-IsFueled : (input : Input) → IsFueled (read_string input)
unfolding read_string
read_string-IsFueled input =
    read_chunks-IsFueled (suc (in_kernel input)) 64 [] input (omega arith) (omega arith)
