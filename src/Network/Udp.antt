-- ===== src/Network/Udp.antt =====
-- Datagrams, kernel/network/schemes/udp/main.rs, over a file of the ip scheme that is a parameter,
-- and the checksum of libstd/src/net.rs, which is that of kernel/network/common.rs.
pub mod Open
pub mod Checked
pub mod Stuck
mod Tests
use redox.Prelude.{
  ℕ, zero, suc, ◌+◌, ◌*◌, ◌/◌, ◌%◌, ◌^◌, Bool, ◌&&◌, List, [], ◌∷◌, ◌++◌, Option, none, some, ltb,
  leb, ◌==◌, if◌then◌else◌, length, drop, get_or, set,
}
use redox.Prelude.Results.{Result, ok, err}
use redox.Network.Bytes.{N16, new16, get16}
use redox.Network.Checksum.{sum, compile}
use redox.Network.Link.{gives, fails, waits, panicked, Resource}

pub record UdpHeader : Type 0 where
  pub src : N16
  pub dst : N16
  pub len : N16
  pub checksum : ℕ

pub record Udp : Type 0 where
  pub header : UdpHeader
  pub payload : List ℕ

-- `ptr::read(bytes.as_ptr() as *const UdpHeader)`, of at least 8 bytes
pub udp_header_at : List ℕ → UdpHeader
udp_header_at bytes =
    let at : ℕ → ℕ = λ i. get_or bytes i 0 in
    record {
      src = record { b0 = at 0; b1 = at 1 };
      dst = record { b0 = at 2; b1 = at 3 };
      len = record { b0 = at 4; b1 = at 5 };
      checksum = at 6 + 256 * at 7;
    }

pub udp_from_bytes : List ℕ → Option Udp
unfolding udp_header_at
udp_from_bytes bytes =
    if leb 8 (length bytes)
    then some (record { header = udp_header_at bytes; payload = drop 8 bytes })
    else none

pub n16_bytes : N16 → List ℕ
n16_bytes n = n.b0 ∷ n.b1 ∷ []

-- The fields before the checksum.
pub udp_ports : UdpHeader → List ℕ
udp_ports h = h.src.b0 ∷ h.src.b1 ∷ h.dst.b0 ∷ h.dst.b1 ∷ h.len.b0 ∷ h.len.b1 ∷ []

pub udp_header_bytes : UdpHeader → List ℕ
unfolding udp_ports
udp_header_bytes h = udp_ports h ++ h.checksum % 256 ∷ h.checksum / 256 ∷ []

pub udp_to_bytes : Udp → List ℕ
unfolding udp_header_bytes
udp_to_bytes u = udp_header_bytes u.header ++ u.payload

pub record UdpResource {ℓ} (S : Type ℓ) : Type ℓ where
  pub ip : S
  pub pending : List ℕ
  pub peer_addr : List ℕ
  pub peer_port : ℕ
  pub host_port : ℕ

-- `let i = 0; while i < buf.len() && i < bytes.len() { buf[i] = bytes[i]; }`, on fuel: nothing
-- when it is spent.
pub copy_loop : ℕ → ℕ → List ℕ → List ℕ → Option (List ℕ × ℕ)
copy_loop zero i buf bytes = none
copy_loop (suc fuel) i buf bytes =
    let rest = copy_loop fuel i (set buf i (get_or bytes i 0)) bytes in
    if ltb i (length buf) && ltb i (length bytes) then rest else some (buf, i)

-- A read: what it returns, or that its copying does not end within the fuel, that it waits for a
-- datagram, or that the file panics.
pub data Read {ℓ} (S : Type ℓ) : Type ℓ where
  returned : List ℕ → Result ℕ → UdpResource S → Read S
  copies : Read S
  waiting : Read S
  crashed : Read S

module _ {ℓ} {S : Type ℓ} where
  pub for_resource : UdpResource S → Udp → Bool
  for_resource r u = get16 u.header.dst == r.host_port && get16 u.header.src == r.peer_port

  -- A read that copies `bytes`.
  pub copied : ℕ → List ℕ → List ℕ → UdpResource S → Read S
  unfolding copy_loop
  copied fuel buf bytes r = elim (copy_loop fuel 0 buf bytes) [
    | none ↦ copies
    | some (buf', i) ↦ returned buf' (ok i) r
  ]

  -- The datagram of `write`, before its checksum.
  pub unchecked : UdpResource S → List ℕ → Udp
  unchecked r buf = record {
    header = record {
      src = new16 r.host_port;
      dst = new16 r.peer_port;
      len = new16 ((8 + length buf) % 2 ^ 16);
      checksum = 0;
    };
    payload = buf;
  }

  -- The sums of `write`, in 64 bits.
  pub datagram_sum : List ℕ → UdpResource S → Udp → ℕ
  unfolding n16_bytes
  datagram_sum ip_addr r u =
      (sum ip_addr
        + sum r.peer_addr
        + sum (n16_bytes (new16 0x11))
        + sum (n16_bytes (new16 ((8 + length u.payload) % 2 ^ 16)))
        + sum (udp_header_bytes u.header)
        + sum u.payload)
      % 2 ^ 64

  pub datagram : List ℕ → UdpResource S → List ℕ → Udp
  unfolding unchecked datagram_sum
  datagram ip_addr r buf =
      let u = unchecked r buf in
      record u { header = record u.header { checksum = compile (datagram_sum ip_addr r u) } }

module _ {ℓ} {S : Type ℓ} (below : Resource S) where
  -- The loop of `read`, on fuel.
  pub read_datagrams : ℕ → UdpResource S → List ℕ → Read S
  unfolding udp_from_bytes copied for_resource
  read_datagrams zero r buf = waiting
  read_datagrams (suc fuel) r buf = elim (below.read_to_end r.ip []) [
    | gives n bytes s ↦
        let r' : UdpResource S = record r { ip = s } in
        let later = read_datagrams fuel r' buf in
        elim (udp_from_bytes bytes) [
          | none ↦ later
          | some u ↦ if for_resource r u then copied (suc fuel) buf u.payload r' else later
        ]
    | fails e s ↦ returned buf (err e) (record r { ip = s })
    | waits ↦ waiting
    | panicked ↦ crashed
  ]

  pub read : ℕ → UdpResource S → List ℕ → Read S
  unfolding read_datagrams
  read fuel r buf =
      let datagrams = read_datagrams fuel r buf in
      elim r.pending [
        | [] ↦ datagrams
        | b ∷ bs ↦ copied fuel buf (b ∷ bs) (record r { pending = [] })
      ]

  pub write : List ℕ → UdpResource S → List ℕ → Result ℕ × UdpResource S
  unfolding datagram udp_to_bytes
  write ip_addr r buf =
      let (result, s) = below.write r.ip (udp_to_bytes (datagram ip_addr r buf)) in
      let r' : UdpResource S = record r { ip = s } in
      elim result [ ok n ↦ (ok (length buf), r') | err e ↦ (err e, r') ]

  pub dup : UdpResource S → Result (UdpResource S)
  dup r = elim (below.dup r.ip) [ ok s ↦ ok (record r { ip = s }) | err e ↦ err e ]
