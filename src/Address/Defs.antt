-- ===== src/Address/Defs.antt =====
-- Workspace/networks.c: `setupUdpClientToServer` and `udpServerSetup`, and what they call in
-- Workspace/gethostbyname.c. The system calls are parameters.
use remote_file_copy_udp_pro.Base.{
  ℕ, ◌>>=◌, Option, none, some, List, take, replicate, Bool, true, false, Endian, htons,
  if◌then◌else◌,
}

pub data Family : Type 0 where
  af_inet af_inet6 : Family

-- A `struct sockaddr_in6`, or the `struct sockaddr_in` of an IPv4 address: the port as it is stored,
-- and the bytes of the address.
pub record SockAddr : Type 0 where
  pub family : Option Family
  pub port : ℕ
  pub address : List ℕ

-- The hints for `getaddrinfo`; `mapped` is `AI_V4MAPPED | AI_ALL`.
pub record Hints : Type 0 where
  pub ai_family : Family
  pub mapped : Bool

-- The bytes of an address of a family.
abbrev pub address_len : Family → ℕ
address_len af_inet = 4
address_len af_inet6 = 16

-- `memset(address, 0, …)`.
abbrev pub zero_address : SockAddr
zero_address = record { family = none; port = 0; address = replicate 16 0 }

-- What a function of networks.c comes to: it leaves the program, or returns a socket and an address.
pub data Opened : Type 0 where
  exits : Opened
  opened : ℕ → SockAddr → Opened

module _ (getaddrinfo : List ℕ → Hints → Option (List ℕ)) where
  -- `getIPAddress46`: the address filled in, and the static copy of its bytes that is returned.
  -- `getaddrinfo` answers the bytes of the first address of its list, or fails.
  unfoldable pub get_ip_address46 : List ℕ → SockAddr → Family → Option (SockAddr × List ℕ)
  get_ip_address46 host_name sockaddr af_inet = do
    host_info ← getaddrinfo host_name (record { ai_family = af_inet; mapped = false })
    some (record sockaddr { address = take 4 host_info }, take 4 host_info)
  get_ip_address46 host_name sockaddr af_inet6 = do
    host_info ← getaddrinfo host_name (record { ai_family = af_inet6; mapped = true })
    some (record sockaddr { address = take 16 host_info }, take 16 host_info)

  -- `gethostbyname6` with an address to fill in, and `gethostbyname4`.
  unfoldable pub gethostbyname6 : List ℕ → SockAddr → Option (SockAddr × List ℕ)
  unfolding get_ip_address46
  gethostbyname6 host_name sockaddr = get_ip_address46 host_name sockaddr af_inet6

  unfoldable pub gethostbyname4 : List ℕ → SockAddr → Option (SockAddr × List ℕ)
  unfolding get_ip_address46
  gethostbyname4 host_name sockaddr = get_ip_address46 host_name sockaddr af_inet

  -- `setupUdpClientToServer`. `socket` is what the call of that name returns, `none` for an error.
  unfoldable pub setup_udp_client_to_server : Endian → Option ℕ → List ℕ → ℕ → Opened
  unfolding gethostbyname6
  setup_udp_client_to_server e socket host_name server_port = elim socket [
    | none ↦ exits
    | some socket_num ↦
        let server_address : SockAddr = record zero_address {
          port = htons e server_port;
          family = some af_inet6;
        } in
        elim (gethostbyname6 host_name server_address) [
          | none ↦ exits
          | some (filled, ip_address) ↦ opened socket_num filled
        ]
  ]

-- The address with a port that stands for any address of the server's host.
abbrev pub any_address : Endian → ℕ → SockAddr
any_address e server_port = record zero_address {
  family = some af_inet6;
  address = replicate 16 0;
  port = htons e server_port;
}

-- `udpServerSetup`: `bind` answers whether the socket has the address, and `getsockname` which address
-- the socket has. The port that is printed is the second result.
unfoldable pub udp_server_setup :
    (bind : ℕ → SockAddr → Bool) (getsockname : ℕ → SockAddr)
    → Endian
    → Option ℕ
    → ℕ
    → Option (ℕ × ℕ)
udp_server_setup bind getsockname e socket server_port = elim socket [
  | none ↦ none
  | some socket_num ↦
      if bind socket_num (any_address e server_port)
      then some (socket_num, htons e (getsockname socket_num).port)
      else none
]
