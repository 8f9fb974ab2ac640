-- ===== src/Examples/Address.antt =====
-- An example for the ports: the system has picked port 4660.
use remote_file_copy_udp_pro.Base.{ℕ, ◌≡◌, refl, true, some, [], replicate, take, arith, little}
use remote_file_copy_udp_pro.Address.{
  SockAddr, af_inet6, opened, setup_udp_client_to_server, udp_server_setup, zero_address,
}
use remote_file_copy_udp_pro.Address.Ports.{server_port-client}

abbrev bound_to : SockAddr
bound_to = record zero_address { port = 4660 }

server_port-client_example :
    (printed : ℕ) × (udp_server_setup (λ s a. true) (λ s. bound_to) little (some 3) 0
      ≡ some (3, printed))
    × (setup_udp_client_to_server (λ host hints. some (replicate 16 1)) little (some 4) [] printed
        ≡ opened 4
            (record { family = some af_inet6; port = 4660; address = take 16 (replicate 16 1) }))
server_port-client_example =
    server_port-client (λ host hints. some (replicate 16 1)) (λ s a. true) (λ s. bound_to) little 3
      4 0 [] (replicate 16 1) refl (omega arith) refl
