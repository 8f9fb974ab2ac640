-- ===== src/Receiver/State.antt =====
-- Workspace/functions.h: `TRANSFER_STATE`, `PacketEntry` and `ReceiveInfo`.
use remote_file_copy_udp_pro.Base.{ℕ, Bool, List, [], ◌∷◌, ◌++◌}
use remote_file_copy_udp_pro.Net.{Sent}

pub data TransferState : Type 0 where
  in_order out_of_order flush : TransferState

-- `PacketEntry`: `packet` is the array of `MAXBUF` bytes.
pub record PacketEntry : Type 0 where
  pub packet : List ℕ
  pub packet_len : ℕ
  pub valid : Bool

-- `ReceiveInfo`. The output file is the list of the bytes written to it so far, and `sent` what has
-- been handed to `sendtoErr`.
pub record ReceiveInfo : Type 0 where
  pub buffer : List PacketEntry
  pub window_size : ℕ
  pub expected : ℕ
  pub highest : ℕ
  pub out_file : List ℕ
  pub socket_num : ℕ
  pub server_addr : ℕ
  pub eof_seq : ℕ
  pub sent : List Sent

-- `fwrite(bytes, 1, length bytes, info->outFile)`.
abbrev pub write : ReceiveInfo → List ℕ → ReceiveInfo
write info bytes = record info { out_file = info.out_file ++ bytes }

-- `sendtoErr` to the server.
abbrev pub send : ReceiveInfo → List ℕ → ReceiveInfo
send info bytes = record info {
  sent = info.sent ++ (record { target = info.server_addr; bytes = bytes } ∷ []);
}
