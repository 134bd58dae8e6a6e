-- ===== src/Network/Ip/Connect.antt =====
-- `open` of kernel/network/schemes/ip.rs: the table of addresses, the request for one, and the wait
-- for a packet of a protocol. What a call that does not come back leaves is `none`: it waits, or
-- it panics.
pub mod Resolve
use redox.Prelude.{
  ℕ, zero, suc, ◌+◌, ◌%◌, ◌^◌, Bool, ◌&&◌, List, [], ◌∷◌, ◌++◌, Option, none, some, ◌==◌,
  if◌then◌else◌,
}
use redox.Prelude.Results.{Result, ok, err}
use redox.Common.ToNum.{to_num_radix}
use redox.Network.Arp.{Arp, ArpHeader, arp_from_bytes, arp_to_bytes}
use redox.Network.Bytes.{new16, get16, equals, split_on, mac_to_string, ipv4_from_string}
use redox.Network.Ethernet.{broadcast_mac_addr}
use redox.Network.Ip.{IpResource, arrives}
use redox.Network.Ipv4.{panics, too_short, packet, ipv4_from_bytes}
use redox.Network.Link.{gives, fails, waits, panicked, Resource}

pub record ArpEntry : Type 0 where
  pub ip : List ℕ
  pub mac : List ℕ

pub record IpScheme : Type 0 where
  pub arp : List ArpEntry

-- The loop over the table: the first entry of the address, or the broadcast address.
pub find_mac : List ArpEntry → List ℕ → List ℕ
find_mac [] peer_addr = broadcast_mac_addr
find_mac (entry ∷ arp) peer_addr =
    let rest = find_mac arp peer_addr in if equals entry.ip peer_addr then entry.mac else rest

-- `"ethernet:".to_string() + &peer_mac.to_string() + "/806"`, and with "/800"
pub link_url : List ℕ → List ℕ → List ℕ
link_url mac ethertype =
    (b'e' ∷ b't' ∷ b'h' ∷ b'e' ∷ b'r' ∷ b'n' ∷ b'e' ∷ b't' ∷ b':' ∷ [])
    ++ mac_to_string mac
    ++ b'/' ∷ ethertype

abbrev pub arp_type : List ℕ
arp_type = b'8' ∷ b'0' ∷ b'6' ∷ []

abbrev pub ip_type : List ℕ
ip_type = b'8' ∷ b'0' ∷ b'0' ∷ []

-- `Url::open` of the system `W`, and its random numbers.
pub record System {ℓ κ} (W : Type ℓ) (L : Type κ) : Type (ℓ ⊔ κ) where
  pub open_link : W → List ℕ → Option L × W
  pub rand : W → ℕ × W

pub request : List ℕ → List ℕ → List ℕ → List ℕ → Arp
request mac_addr ip_addr peer_mac peer_addr = record {
  header = record {
    htype = new16 1;
    ptype = new16 0x800;
    hlen = 6;
    plen = 4;
    oper = new16 1;
    src_mac = mac_addr;
    src_ip = ip_addr;
    dst_mac = peer_mac;
    dst_ip = peer_addr;
  };
  payload = [];
}

-- The test on a packet that may be the answer.
pub answers : List ℕ → Arp → Bool
answers peer_addr p = get16 p.header.oper == 2 && equals p.header.src_ip peer_addr

module _ {κ} {L : Type κ} (below : Resource L) where
  -- The loop that waits for the answer, on fuel: errors of the link do not end it.
  pub await_answer : ℕ → L → List ℕ → Option (List ℕ)
  unfolding answers
  await_answer zero l peer_addr = none
  await_answer (suc fuel) l peer_addr = elim (below.read_to_end l []) [
    | gives n bytes l' ↦
        let later = await_answer fuel l' peer_addr in
        elim (arp_from_bytes bytes) [
          | none ↦ later
          | some p ↦ if answers peer_addr p then some p.header.src_mac else later
        ]
    | fails e l' ↦ await_answer fuel l' peer_addr
    | waits ↦ none
    | panicked ↦ none
  ]

module _ {ℓ κ} {W : Type ℓ} {L : Type κ} (system : System W L) (below : Resource L)
    (mac_addr ip_addr : List ℕ) where
  -- The part of `open` that asks for the address: the address to use, and the table.
  pub ask : ℕ → IpScheme → W → List ℕ → Option (List ℕ × IpScheme × W)
  unfolding await_answer request link_url
  ask fuel scheme w peer_addr =
      let (link, w') = system.open_link w (link_url broadcast_mac_addr arp_type) in
      elim link [
        | none ↦ some (broadcast_mac_addr, scheme, w')
        | some l ↦
            let bytes = arp_to_bytes (request mac_addr ip_addr broadcast_mac_addr peer_addr) in
            let (result, l') = below.write l bytes in
            elim result [
              | ok n ↦ elim (await_answer below fuel l' peer_addr) [
                | none ↦ none
                | some mac ↦
                    let entry : ArpEntry = record { ip = peer_addr; mac = mac } in
                    some (mac, record { arp = scheme.arp ++ entry ∷ [] }, w')
              ]
              | err e ↦ some (broadcast_mac_addr, scheme, w')
            ]
      ]

  pub resolve : ℕ → IpScheme → W → List ℕ → Option (List ℕ × IpScheme × W)
  unfolding find_mac ask
  resolve fuel scheme w peer_addr =
      let mac = find_mac scheme.arp peer_addr in
      let asked = ask fuel scheme w peer_addr in
      if equals mac broadcast_mac_addr then asked else some (mac, scheme, w)

  -- The end of `open` with a host.
  pub connect : List ℕ → ℕ → List ℕ → W → Result (IpResource L) × W
  unfolding link_url
  connect peer_addr proto mac w =
      let (link, w') = system.open_link w (link_url mac ip_type) in
      elim link [
        | none ↦ (err 2, w')
        | some l ↦
            let (number, w'') = system.rand w' in
            (
              ok (record {
                link = l;
                pending = [];
                peer_addr = peer_addr;
                proto = proto;
                id = number % 65_536 % 2 ^ 16;
              }),
              w'',
            )
      ]

  -- `open` without a host, on fuel: the first packet of the protocol names the peer. A link is
  -- opened for each round.
  pub accept : ℕ → ℕ → W → Option (Result (IpResource L) × W)
  unfolding arrives
  accept zero proto w = none
  accept (suc fuel) proto w =
      let (link, w') =
        system.open_link w
          ((b'e' ∷ b't' ∷ b'h' ∷ b'e' ∷ b'r' ∷ b'n' ∷ b'e' ∷ b't' ∷ b':' ∷ []) ++ b'/' ∷ ip_type) in
      let later = accept fuel proto w' in
      elim link [
        | none ↦ some (err 2, w')
        | some l ↦ elim (below.read_to_end l []) [
          | gives n bytes l' ↦ elim (ipv4_from_bytes bytes) [
            | panics ↦ none
            | too_short ↦ later
            | packet p ↦
                let (number, w'') = system.rand w' in
                let opened : IpResource L = record {
                  link = l';
                  pending = p.payload;
                  peer_addr = p.header.src;
                  proto = proto;
                  id = number % 65_536 % 2 ^ 16;
                } in
                if arrives ip_addr proto p.header then some (ok opened, w'') else later
          ]
          | fails e l' ↦ some (err 2, w')
          | waits ↦ none
          | panicked ↦ none
        ]
      ]

  -- `open`, on the two parts of the reference.
  pub open_parts :
      ℕ → IpScheme → W → List ℕ → List ℕ → Option (Result (IpResource L) × IpScheme × W)
  unfolding resolve connect accept
  open_parts fuel scheme w [] proto_string =
      elim (accept fuel (to_num_radix (2 ^ 64) proto_string 16 % 256) w) [
        | none ↦ none
        | some (result, w') ↦ some (result, scheme, w')
      ]
  open_parts fuel scheme w (c ∷ host) proto_string =
      let proto = to_num_radix (2 ^ 64) proto_string 16 % 256 in
      let peer_addr = ipv4_from_string (c ∷ host) in
      elim (resolve fuel scheme w peer_addr) [
        | none ↦ none
        | some (mac, scheme', w') ↦
            let (result, w'') = connect peer_addr proto mac w' in some (result, scheme', w'')
      ]

  pub ip_open : ℕ → IpScheme → W → List ℕ → Option (Result (IpResource L) × IpScheme × W)
  unfolding open_parts
  ip_open fuel scheme w reference = elim (split_on b'/' reference) [
    | [] ↦ some (err 2, scheme, w)
    | host ∷ parts ↦ elim parts [
      | [] ↦ some (err 2, scheme, w)
      | proto ∷ more ↦ open_parts fuel scheme w host proto
    ]
  ]
