-- ===== src/Network/Udp/Open.antt =====
-- `Scheme::open` of kernel/network/schemes/udp/main.rs. The URLs, the files and the random numbers
-- are those of the standard library.
use redox.Prelude.{
  ℕ, ◌+◌, ◌%◌, ◌^◌, ◌&&◌, List, [], ◌∷◌, ◌++◌, Option, none, some, ltb, ◌==◌, if◌then◌else◌,
}
use redox.Prelude.Results.{Result, ok, err}
use redox.Common.ToNum.{to_num}
use redox.Network.Bytes.{get16, ipv4_from_string}
use redox.Network.Link.{gives, fails, waits, panicked, Resource}
use redox.Network.Udp.{UdpResource, udp_from_bytes}

-- The parts of the URL that `open` reads.
pub record UdpUrl : Type 0 where
  pub host : List ℕ
  pub port : List ℕ
  pub path : List ℕ

-- `File::open`, `File::path` and the host of the URL that it is, and `rand`.
pub record Files {ℓ} (S : Type ℓ) : Type ℓ where
  pub open_file : List ℕ → Option S
  pub path_host : S → Option (List ℕ)
  pub rand : ℕ

ip_url : List ℕ → List ℕ
ip_url host = (b'i' ∷ b'p' ∷ b':' ∷ b'/' ∷ b'/' ∷ []) ++ host ++ b'/' ∷ b'1' ∷ b'1' ∷ []

module _ {ℓ} {S : Type ℓ} (below : Resource S) (files : Files S) where
  -- With a path: the first datagram, if it is for the port, names the peer. `none` where the read
  -- does not come back.
  pub listen : ℕ → Option (Result (UdpResource S))
  unfolding ip_url
  listen host_port = elim (files.open_file (ip_url [])) [
    | none ↦ some (err 2)
    | some ip ↦ elim (below.read_to_end ip []) [
      | gives n bytes s ↦ elim (udp_from_bytes bytes) [
        | none ↦ some (err 2)
        | some u ↦
            let opened : Result (UdpResource S) = elim (files.path_host s) [
              | none ↦ err 2
              | some host ↦ ok (record {
                ip = s;
                pending = u.payload;
                peer_addr = ipv4_from_string host;
                peer_port = get16 u.header.src;
                host_port = host_port % 2 ^ 16;
              })
            ] in
            if get16 u.header.dst == host_port then some opened else some (err 2)
      ]
      | fails e s ↦ some (err 2)
      | waits ↦ none
      | panicked ↦ none
    ]
  ]

  pub connect : UdpUrl → ℕ → Result (UdpResource S)
  unfolding ip_url
  connect url peer_port = elim (files.open_file (ip_url url.host)) [
    | none ↦ err 2
    | some ip ↦ ok (record {
      ip = ip;
      pending = [];
      peer_addr = ipv4_from_string url.host;
      peer_port = peer_port % 2 ^ 16;
      host_port = (files.rand % 32_768 + 32_768) % 2 ^ 16;
    })
  ]

  pub udp_open : UdpUrl → Option (Result (UdpResource S))
  unfolding listen connect
  udp_open url =
      let port = to_num (2 ^ 64) url.port in
      let valid = ltb 0 port && ltb port 65_536 in
      elim url.path [
        | [] ↦ if valid then some (connect url port) else some (err 2)
        | c ∷ cs ↦ if valid then listen port else some (err 2)
      ]
