-- ===== src/Address/Ports.antt =====
-- Workspace/networks.c: the port that the server prints, and the port that the client sends to.
use remote_file_copy_udp_pro.Base.{
  ℕ, ◌<◌, ◌≡◌, refl, Option, some, List, Bool, true, take, Endian, u16_mod, htons, htons-htons,
}
use remote_file_copy_udp_pro.Address.Defs.{
  SockAddr, Hints, any_address, af_inet6, opened, setup_udp_client_to_server, udp_server_setup,
  gethostbyname6, get_ip_address46,
}

-- Where `bind` succeeds, `getsockname` answers a 16-bit port and the host is found:
-- `udpServerSetup` prints a number which, given to the client's `setupUdpClientToServer`, fills in
-- the IPv6 address of the host with just the port that the server's socket has, on a host of either
-- byte order.
pub server_port-client :
    (getaddrinfo : List ℕ → Hints → Option (List ℕ)) (bind : ℕ → SockAddr → Bool)
    (getsockname : ℕ → SockAddr) (e : Endian) (main_socket socket_num server_port : ℕ)
    (host_name host_info : List ℕ)
    → bind main_socket (any_address e server_port) ≡ true
    → (getsockname main_socket).port < u16_mod
    → getaddrinfo host_name (record { ai_family = af_inet6; mapped = true }) ≡ some host_info
    → (printed : ℕ) × (udp_server_setup bind getsockname e (some main_socket) server_port
        ≡ some (main_socket, printed))
      × (setup_udp_client_to_server getaddrinfo e (some socket_num) host_name printed
          ≡ opened socket_num (record {
            family = some af_inet6;
            port = (getsockname main_socket).port;
            address = take 16 host_info;
          }))
unfolding setup_udp_client_to_server udp_server_setup
server_port-client getaddrinfo bind getsockname e main_socket socket_num server_port host_name
      host_info bound small found =
    (
      htons e (getsockname main_socket).port,
      rw bound refl,
      rw
          (
            setup_udp_client_to_server,
            htons-htons e (getsockname main_socket).port small,
            gethostbyname6,
            get_ip_address46,
            found,
          )
          refl,
    )
