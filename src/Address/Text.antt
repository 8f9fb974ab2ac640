-- ===== src/Address/Text.antt =====
-- Workspace/gethostbyname.c: addresses as texts, and the test of the resolver.
use remote_file_copy_udp_pro.Address.Defs.{
  Family, af_inet, af_inet6, SockAddr, Hints, gethostbyname6, gethostbyname4,
}
use remote_file_copy_udp_pro.Base.{ℕ, Option, none, some, List, [], ◌∷◌, ◌++◌, Endian, htons, codes}
use remote_file_copy_udp_pro.Output.{Line, ip_info, ipv6_host, ipv4_host, empty_line}

module _ (inet_ntop : Family → List ℕ → List ℕ) where
  -- `getIPAddressString46`; NULL is `none`.
  unfoldable pub get_ip_address_string46 : Option (List ℕ) → Family → List ℕ
  get_ip_address_string46 none family = codes "(IP not found)"
  get_ip_address_string46 (some ip_address) family = inet_ntop family ip_address

  -- `getIPAddressString4` and `getIPAddressString6`.
  unfoldable pub get_ip_address_string4 : Option (List ℕ) → List ℕ
  unfolding get_ip_address_string46
  get_ip_address_string4 ip_address = get_ip_address_string46 ip_address af_inet

  unfoldable pub get_ip_address_string6 : Option (List ℕ) → List ℕ
  unfolding get_ip_address_string46
  get_ip_address_string6 ip_address = get_ip_address_string46 ip_address af_inet6

  -- `ipAddressToString` and `printIPInfo`.
  unfoldable pub ip_address_to_string : SockAddr → List ℕ
  ip_address_to_string address_struct = inet_ntop af_inet6 address_struct.address

  unfoldable pub print_ip_info : Endian → SockAddr → List Line
  unfolding ip_address_to_string
  print_ip_info e address_struct =
      ip_info (ip_address_to_string address_struct) (htons e address_struct.port) ∷ []

  module _ (getaddrinfo : List ℕ → Hints → Option (List ℕ)) where
    -- `gethostbyname_test_lookup`. `temp` is the local address that the two functions fill in where
    -- they are given NULL.
    unfoldable pub gethostbyname_test_lookup : SockAddr → List ℕ → List Line
    unfolding get_ip_address_string4 get_ip_address_string6
    gethostbyname_test_lookup temp hostname =
        let ipv6 : List Line = elim (gethostbyname6 getaddrinfo hostname temp) [
          | none ↦ []
          | some (filled, ip_address) ↦
              ipv6_host hostname (get_ip_address_string6 (some ip_address)) ∷ []
        ] in
        let ipv4 : List Line = elim (gethostbyname4 getaddrinfo hostname temp) [
          | none ↦ []
          | some (filled, ip_address) ↦
              ipv4_host hostname (get_ip_address_string4 (some ip_address)) ∷ []
        ] in
        ipv6 ++ (ipv4 ++ (empty_line ∷ []))

    -- `gethostbyname_test`.
    unfoldable pub gethostbyname_test : SockAddr → List Line
    unfolding gethostbyname_test_lookup
    gethostbyname_test temp =
        gethostbyname_test_lookup temp (codes "www.google.com")
        ++ (gethostbyname_test_lookup temp (codes "ipv6.google.com")
            ++ (gethostbyname_test_lookup temp (codes "my.calpoly.edu")
                ++ gethostbyname_test_lookup temp (codes "does not exist")))
