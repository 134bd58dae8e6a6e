-- ===== src/Network/Ipv4.antt =====
-- IPv4 packets, kernel/network/ipv4.rs. A panic of a slice is `none`.
pub mod Format
use redox.Prelude.{
  ℕ, ◌+◌, ◌*◌, ◌/◌, ◌%◌, ◌^◌, List, [], ◌∷◌, ◌++◌, none, some, leb, if◌then◌else◌, length, get_or,
  take, drop,
}
use redox.Common.Slice.{get_slice}
use redox.Network.Bytes.{N16}

pub record Ipv4Header : Type 0 where
  pub ver_hlen : ℕ
  pub services : ℕ
  pub len : N16
  pub id : N16
  pub flags_fragment : N16
  pub ttl : ℕ
  pub proto : ℕ
  pub checksum : ℕ
  pub src : List ℕ
  pub dst : List ℕ

pub record Ipv4 : Type 0 where
  pub header : Ipv4Header
  pub options : List ℕ
  pub payload : List ℕ

-- `*(bytes.as_ptr() as *const Ipv4Header)`, of at least 20 bytes; the checksum is little endian.
pub ipv4_header_at : List ℕ → Ipv4Header
ipv4_header_at bytes =
    let at : ℕ → ℕ = λ i. get_or bytes i 0 in
    record {
      ver_hlen = at 0;
      services = at 1;
      len = record { b0 = at 2; b1 = at 3 };
      id = record { b0 = at 4; b1 = at 5 };
      flags_fragment = record { b0 = at 6; b1 = at 7 };
      ttl = at 8;
      proto = at 9;
      checksum = at 10 + 256 * at 11;
      src = take 4 (drop 12 bytes);
      dst = take 4 (drop 16 bytes);
    }

-- `((header.ver_hlen & 0xF) << 2) as usize`
unfoldable pub ipv4_header_len : Ipv4Header → ℕ
ipv4_header_len h = h.ver_hlen % 2 ^ 4 * 2 ^ 2

pub data Packet : Type 0 where
  panics : Packet
  too_short : Packet
  packet : Ipv4 → Packet

-- The slices of `from_bytes`, behind the header.
pub ipv4_parts : Ipv4Header → List ℕ → Packet
unfolding ipv4_header_len
ipv4_parts header bytes =
    let n = ipv4_header_len header in
    elim (get_slice bytes (some (some 20)) (some (some n))) [
      | none ↦ panics
      | some options ↦ elim (get_slice bytes (some (some n)) none) [
        | none ↦ panics
        | some payload ↦ packet (record { header = header; options = options; payload = payload })
      ]
    ]

pub ipv4_from_bytes : List ℕ → Packet
unfolding ipv4_header_at ipv4_parts
ipv4_from_bytes bytes =
    if leb 20 (length bytes) then ipv4_parts (ipv4_header_at bytes) bytes else too_short

-- The fields before the checksum.
unfoldable pub ipv4_before_checksum : Ipv4Header → List ℕ
ipv4_before_checksum h =
    h.ver_hlen ∷ h.services ∷ h.len.b0 ∷ h.len.b1 ∷ h.id.b0 ∷ h.id.b1 ∷ h.flags_fragment.b0
    ∷ h.flags_fragment.b1 ∷ h.ttl ∷ h.proto ∷ []

unfoldable pub ipv4_header_bytes : Ipv4Header → List ℕ
unfolding ipv4_before_checksum
ipv4_header_bytes h =
    ipv4_before_checksum h ++ h.checksum % 256 ∷ h.checksum / 256 ∷ (h.src ++ h.dst)

pub ipv4_to_bytes : Ipv4 → List ℕ
unfolding ipv4_header_bytes
ipv4_to_bytes p = ipv4_header_bytes p.header ++ p.options ++ p.payload
