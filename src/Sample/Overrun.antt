-- ===== src/Sample/Overrun.antt =====
-- Workspace/myServer.c: a message that fills the array.
use remote_file_copy_udp_pro.Base.{
  ℕ, ◌≤◌, ◌≡◌, ◌≢◌, refl, ap, ◌∙◌, false, Option, none, some, List, [], ◌∷◌, ◌++◌, length, drop,
  memcpy, memcpy_front, take-all, length-drop, append-nil, arith, ◌==◌,
}
use remote_file_copy_udp_pro.Output.{Line}
use remote_file_copy_udp_pro.Sample.Server.{recv_from_client}
use remote_file_copy_udp_pro.Sample.State.{faults, max_buf, print_text}
use remote_file_copy_udp_pro.Tcp.{safe_recv}

-- A text without a NUL in the whole array.
abbrev pub NoNul : List ℕ → Type 0
NoNul [] = Unit
NoNul (b ∷ bytes) = (b ≢ 0) × NoNul bytes

print_text-NoNul : (bytes : List ℕ) → NoNul bytes → print_text bytes ≡ none
unfolding print_text
print_text-NoNul [] nonzero = refl
print_text-NoNul (b ∷ bytes) nonzero =
    let other : (b == 0) ≡ false = ground (arith, nonzero.0) in
    rw (other, print_text-NoNul bytes nonzero.1) refl

-- When `MAXBUF` bytes without a NUL arrive, `recvFromClient` of the sample server prints past the
-- end of its array.
pub recv_from_client-NoNul :
    (recv : ℕ → ℕ → Option (List ℕ)) (stack bytes : List ℕ) (client_socket : ℕ)
    (printed : List Line)
    → length stack ≡ max_buf
    → length bytes ≡ max_buf
    → NoNul bytes
    → recv client_socket max_buf ≡ some bytes
    → recv_from_client recv stack client_socket printed ≡ faults
unfolding recv_from_client safe_recv
recv_from_client-NoNul recv stack bytes client_socket printed sized full nonzero whole =
    let all = take-all bytes max_buf (omega (arith, full)) in
    let some_bytes : (length bytes == 0) ≡ false = ground (arith, full) in
    let none_left : drop (length bytes) stack ≡ [] =
      empty (drop (length bytes) stack)
        (omega (arith, length-drop (length bytes) stack, sized, full)) in
    let placed : memcpy stack 0 bytes ≡ bytes =
      memcpy_front stack bytes (omega (arith, sized, full))
      ∙ ap (λ xs. bytes ++ xs) none_left
      ∙ append-nil bytes in
    rw (recv_from_client, safe_recv, whole, all, some_bytes, placed, print_text-NoNul bytes nonzero)
      refl
  where
    empty : (xs : List ℕ) → length xs ≤ 0 → xs ≡ []
    empty [] le = refl
    empty (x ∷ xs) le = absurd (omega (arith, le))
