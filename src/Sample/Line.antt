-- ===== src/Sample/Line.antt =====
-- Workspace/myClient.c: what `readFromStdin` reads, against the line that is typed.
use remote_file_copy_udp_pro.Base.{
  ℕ, zero, suc, ◌+◌, ◌≤◌, ◌<◌, ◌≡◌, refl, sym, ap, ◌∙◌, List, [], ◌∷◌, ◌++◌, length, set, take,
  replicate, length-set, length-take, append-nil, append_assoc, arith, ◌==◌, if◌then◌else◌,
  Bool-cases, inl, inr,
}
use remote_file_copy_udp_pro.Sample.Client.{read_loop, read_from_stdin}
use remote_file_copy_udp_pro.Sample.State.{max_buf}

-- The bytes before the first newline.
abbrev pub before_newline : List ℕ → List ℕ
before_newline [] = []
before_newline (c ∷ bytes) = if c == 10 then [] else c ∷ before_newline bytes

-- What is typed in one line, as far as the array has room: behind the end of the input the byte 255
-- comes again and again.
unfoldable pub line_of : List ℕ → List ℕ
line_of stdin = take 1023 (before_newline (stdin ++ replicate 1023 255))

-- A write behind a front.
take-set :
    (xs : List ℕ) (n v : ℕ) → n < length xs → take (suc n) (set xs n v) ≡ take n xs ++ (v ∷ [])
take-set [] n v lt = absurd (omega (arith, lt))
take-set (x ∷ xs) zero v lt = refl
take-set (x ∷ xs) (suc n) v lt = ap (λ ys. x ∷ ys) (take-set xs n v (omega (arith, lt)))

-- What `read_loop` has come to: it has stored `typed` behind the first `len` bytes.
record Stored (buffer : List ℕ) (len : ℕ) (typed : List ℕ) (r : List ℕ × ℕ × List ℕ) : Type 0 where
  front : take r.1 r.0 ≡ take len buffer ++ typed
  size : length r.0 ≡ length buffer
  count : r.1 ≡ len + length typed

-- One more byte in front.
Stored-cons :
    (buffer typed : List ℕ) (len c : ℕ) (r : List ℕ × ℕ × List ℕ)
    → len < length buffer
    → Stored (set buffer len c) (suc len) typed r
    → Stored buffer len (c ∷ typed) r
Stored-cons buffer typed len c r lt v = record {
  front =
      v.front
      ∙ ap (λ xs. xs ++ typed) (take-set buffer len c lt)
      ∙ append_assoc (take len buffer) (c ∷ []) typed;
  size = v.size ∙ length-set buffer len c;
  count = omega (arith, v.count);
}

-- The loop, with `pad` bytes behind the end of the input.
read_loop-Stored :
    (room pad len : ℕ) (buffer stdin : List ℕ)
    → room ≤ pad
    → len + room < length buffer
    → Stored buffer len
        (take room (before_newline (stdin ++ replicate pad 255)))
        (read_loop room buffer len stdin)
unfolding read_loop
read_loop-Stored zero pad len buffer stdin le fits = record {
  front = sym (append-nil (take len buffer));
  size = refl;
  count = omega arith;
}
read_loop-Stored (suc room) zero len buffer stdin le fits = absurd (omega (arith, le))
read_loop-Stored (suc room) (suc pad) len buffer [] le fits =
    Stored-cons buffer _ len 255 _ (omega (arith, fits)) (
      read_loop-Stored room pad (suc len) (set buffer len 255) [] (omega (arith, le))
        (omega (arith, fits, length-set buffer len 255)))
read_loop-Stored (suc room) (suc pad) len buffer (c ∷ stdin) le fits = elim (Bool-cases (c == 10)) [
  | inl newline ↦
      rw newline
        (record { front = sym (append-nil (take len buffer)); size = refl; count = omega arith })
  | inr other ↦ rw other (
      Stored-cons buffer _ len c _ (omega (arith, fits)) (
        read_loop-Stored room (suc pad) (suc len) (set buffer len c) stdin (omega (arith, le))
          (omega (arith, fits, length-set buffer len c))))
]

-- On an array of `MAXBUF` bytes and any input, `readFromStdin` of the sample client stores what
-- stands before the first newline, cut off at 1023 bytes, with the byte 255 again and again behind
-- the end of the input, and a NUL behind it; it returns the length with the NUL, at most `MAXBUF`,
-- and the array keeps its size.
pub read_from_stdin-line :
    (buffer stdin : List ℕ)
    → length buffer ≡ max_buf
    → let (typed, input_len) = read_from_stdin buffer stdin in
      (take input_len typed ≡ line_of stdin ++ (0 ∷ []))
      × (input_len ≡ length (line_of stdin) + 1)
      × (input_len ≤ max_buf)
      × (length typed ≡ max_buf)
unfolding read_from_stdin line_of
read_from_stdin-line buffer stdin sized =
    let r = read_loop 1023 (set buffer 0 0) 0 stdin in
    let zeroed = length-set buffer 0 0 in
    let v =
      read_loop-Stored 1023 1023 0 (set buffer 0 0) stdin (omega arith)
        (omega (arith, sized, zeroed)) in
    let short = length-take 1023 (before_newline (stdin ++ replicate 1023 255)) in
    let next : r.1 + 1 ≡ suc r.1 = omega arith in
    (
      ap (λ n. take n (set r.0 r.1 0)) next
          ∙ take-set r.0 r.1 0 (omega (arith, v.count, v.size, sized, zeroed, short))
          ∙ ap (λ xs. xs ++ (0 ∷ [])) v.front,
      omega (arith, v.count),
      omega (arith, v.count, short),
      length-set r.0 r.1 0 ∙ v.size ∙ zeroed ∙ sized,
    )
