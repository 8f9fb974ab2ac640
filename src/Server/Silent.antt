-- ===== src/Server/Silent.antt =====
-- Workspace/server.c: time-outs on a full window.
use remote_file_copy_udp_pro.Base.{
  ℕ, zero, suc, ◌+◌, ◌≤◌, ◌<◌, ◌≡◌, refl, ap, ◌∙◌, true, some, append_assoc, List, [], ◌∷◌, ◌++◌,
  replicate, arith, Endian, u32_mod, le→leb, lt→leb_false,
}
use remote_file_copy_udp_pro.CircularQueue.{is_full}
use remote_file_copy_udp_pro.Net.{Event, timeout, Sent}
use remote_file_copy_udp_pro.Pdu.{max_buf}
use remote_file_copy_udp_pro.Pdu.Wire.{wire}
use remote_file_copy_udp_pro.CircularQueue.View.{held}
use remote_file_copy_udp_pro.Server.Chunks.{chunk_of, content, Sending}
use remote_file_copy_udp_pro.Server.Send.{resend_first}
use remote_file_copy_udp_pro.Server.Timeouts.{resend_first-same}
use remote_file_copy_udp_pro.Server.State.{done, Child, returns, send}
use remote_file_copy_udp_pro.Server.Transfer.{full, send_loop}

module _ (e : Endian) (in_cksum : List ℕ → ℕ) where
  -- Where every time-out on a full window sends the same datagram, so do `n + 1` of them.
  resends :
      (c : Child) (bytes : List ℕ) (seq : ℕ) (es : List Event)
      → ((log : List Sent)
          → resend_first e in_cksum (record c { sent = log })
            ≡ some (send (record c { sent = log }) bytes))
      → (n count : ℕ) (log : List Sent) → count + suc n ≡ 10
      → send_loop e in_cksum full
          (record c { sent = log })
          seq
          count
          (replicate (suc n) timeout ++ es)
        ≡ returns done
            (record c {
              sent = log ++ replicate (suc n) (record { target = c.client_addr; bytes = bytes });
            })
            es
  unfolding send_loop
  resends c bytes seq es again zero count log last =
      rw (send_loop, again log, le→leb 10 (count + 1) (omega (arith, last))) refl
  resends c bytes seq es again (suc n) count log more =
      let y : Sent = record { target = c.client_addr; bytes = bytes } in
      rw (send_loop, again log, lt→leb_false 10 (count + 1) (omega (arith, more)))
        (resends c bytes seq es again n (count + 1) (log ++ (y ∷ [])) (omega (arith, more))
          ∙ ap (λ xs. returns done (record c { sent = xs }) es)
              (append_assoc log (y ∷ []) (replicate (suc n) y)))

  module _ (size : ℕ) (file : List ℕ) (fits : size ≤ max_buf) where
    -- For a sender with a buffer size of `MAXBUF` at most and below 2^32 packets, and a client that
    -- has fallen silent on a full window: there is one packet that the window holds, whose chunk
    -- every time-out sends again to the client's address, under its own number and flag 18, and the
    -- time-out that brings the counter to 10 ends the child's transfer; nothing else is sent, and
    -- nothing else of the child changes.
    pub send_loop_silent :
        (lo k : ℕ) (c : Child) (count n : ℕ) (es : List Event)
        → k + 1 < u32_mod
        → Sending e in_cksum size file lo k c
        → is_full c.window ≡ true
        → count + suc n ≡ 10
        → (s : ℕ) × (held c.window s ≡ some (content e in_cksum size file s))
          × (send_loop e in_cksum full c (suc k) count (replicate (suc n) timeout ++ es)
              ≡ returns done
                  (record c {
                    sent =
                        c.sent
                        ++ replicate (suc n) (record {
                          target = c.client_addr;
                          bytes = wire e in_cksum s 18 (chunk_of size file s);
                        });
                  })
                  es)
    send_loop_silent lo k c count n es short v at eq =
        let (s, above, below, again) =
          resend_first-same e in_cksum size file fits lo k c short v at in
        (
          s,
          v.holds.maps s ∙ ground (arith, above, below),
          resends c (wire e in_cksum s 18 (chunk_of size file s)) (suc k) es again n count c.sent
              eq,
        )
