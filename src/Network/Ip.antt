-- ===== src/Network/Ip.antt =====
-- kernel/network/schemes/ip.rs: packets of a protocol to and from a peer, over a link that is a
-- parameter. `MAC_ADDR` and `IP_ADDR` are the addresses of the host.
pub mod Checked
pub mod Connect
pub mod Delivery
mod Tests
use redox.Prelude.{
  ℕ, zero, suc, ◌+◌, ◌*◌, ◌/◌, ◌%◌, ◌^◌, Bool, ◌&&◌, List, [], ◌∷◌, ◌++◌, Option, none, some, ◌==◌,
  if◌then◌else◌, length,
}
use redox.Prelude.Results.{Result, ok, err}
use redox.Network.Bytes.{new16, equals}
use redox.Network.Checksum.{sum, compile}
use redox.Network.Ipv4.{
  Ipv4Header, Ipv4, Packet, panics, too_short, packet, ipv4_from_bytes, ipv4_to_bytes,
  ipv4_header_bytes,
}
use redox.Network.Link.{Reading, gives, fails, waits, panicked, Resource}

pub record IpResource {ℓ} (L : Type ℓ) : Type ℓ where
  pub link : L
  pub pending : List ℕ
  pub peer_addr : List ℕ
  pub proto : ℕ
  pub id : ℕ

module _ {ℓ} {L : Type ℓ} (below : Resource L) where
  pub dup : IpResource L → Result (IpResource L)
  dup r = elim (below.dup r.link) [ ok l ↦ ok (record r { link = l }) | err e ↦ err e ]

-- The sum is taken while the field is zero.
pub checked : Ipv4 → Ipv4
checked p = record p {
  header = record p.header {
    checksum = compile ((sum (ipv4_header_bytes p.header) + sum p.options) % 2 ^ 64);
  };
}

-- The protocol and the receiver, which `open` checks too.
pub arrives : List ℕ → ℕ → Ipv4Header → Bool
arrives ip_addr proto h = h.proto == proto && equals h.dst ip_addr

module _ {ℓ} {L : Type ℓ} (ip_addr : List ℕ) where
  pub wanted : IpResource L → Ipv4Header → Bool
  unfolding arrives
  wanted r h = arrives ip_addr r.proto h && equals h.src r.peer_addr

  -- The packet of `write`, before its checksum; `id` is the number behind the increment.
  pub unchecked : IpResource L → ℕ → List ℕ → Ipv4
  unchecked r id buf = record {
    header = record {
      ver_hlen = 0x40 + 20 / 4 % 2 ^ 4;
      services = 0;
      len = new16 ((20 + length buf) % 2 ^ 16);
      id = new16 id;
      flags_fragment = new16 0;
      ttl = 128;
      proto = r.proto;
      checksum = 0;
      src = ip_addr;
      dst = r.peer_addr;
    };
    options = [];
    payload = buf;
  }

module _ {ℓ} {L : Type ℓ} (below : Resource L) (ip_addr : List ℕ) where
  -- The loop of `read_to_end`, which waits when the fuel is spent.
  pub read_packets : ℕ → IpResource L → List ℕ → Reading (IpResource L)
  unfolding wanted
  read_packets zero r vec = waits
  read_packets (suc fuel) r vec = elim (below.read_to_end r.link []) [
    | gives n bytes l ↦
        let r' : IpResource L = record r { link = l } in
        let later = read_packets fuel r' vec in
        elim (ipv4_from_bytes bytes) [
          | panics ↦ panicked
          | too_short ↦ later
          | packet p ↦
              if wanted ip_addr r p.header
              then gives (length p.payload) (vec ++ p.payload) r'
              else later
        ]
    | fails e l ↦ fails e (record r { link = l })
    | waits ↦ waits
    | panicked ↦ panicked
  ]

  pub read_to_end : ℕ → IpResource L → List ℕ → Reading (IpResource L)
  unfolding read_packets
  read_to_end fuel r vec =
      let packets = read_packets fuel r vec in
      elim r.pending [
        | [] ↦ packets
        | b ∷ bs ↦ gives (length (b ∷ bs)) (vec ++ b ∷ bs) (record r { pending = [] })
      ]

  pub write : IpResource L → List ℕ → Result ℕ × IpResource L
  unfolding unchecked checked
  write r buf =
      let id = (r.id + 1) % 2 ^ 16 in
      let (result, l) = below.write r.link (ipv4_to_bytes (checked (unchecked ip_addr r id buf))) in
      let r' : IpResource L = record r { id = id; link = l } in
      elim result [ ok n ↦ (ok (length buf), r') | err e ↦ (err e, r') ]

  -- The layer as a resource for the one above it.
  pub ip : ℕ → Resource (IpResource L)
  unfolding dup read_to_end write
  ip fuel = record { dup = dup below; read_to_end = read_to_end fuel; write = write }
