-- ===== src/Network/Arp.antt =====
-- The address resolution protocol, kernel/network/schemes/arp.rs.
pub mod Format
use redox.Prelude.{
  ℕ, zero, suc, ◌+◌, Bool, ◌&&◌, List, [], ◌∷◌, ◌++◌, Option, none, some, leb, ◌==◌, if◌then◌else◌,
  length, take, drop, get_or,
}
use redox.Network.Bytes.{N16, new16, get16, equals}
use redox.Network.Link.{Reading, gives, fails, waits, panicked, Resource}

pub record ArpHeader : Type 0 where
  pub htype : N16
  pub ptype : N16
  pub hlen : ℕ
  pub plen : ℕ
  pub oper : N16
  pub src_mac : List ℕ
  pub src_ip : List ℕ
  pub dst_mac : List ℕ
  pub dst_ip : List ℕ

pub record Arp : Type 0 where
  pub header : ArpHeader
  pub payload : List ℕ

-- `*(bytes.as_ptr() as *const ArpHeader)`, of at least 28 bytes
pub arp_header_at : List ℕ → ArpHeader
arp_header_at bytes =
    let at : ℕ → ℕ = λ i. get_or bytes i 0 in
    record {
      htype = record { b0 = at 0; b1 = at 1 };
      ptype = record { b0 = at 2; b1 = at 3 };
      hlen = at 4;
      plen = at 5;
      oper = record { b0 = at 6; b1 = at 7 };
      src_mac = take 6 (drop 8 bytes);
      src_ip = take 4 (drop 14 bytes);
      dst_mac = take 6 (drop 18 bytes);
      dst_ip = take 4 (drop 24 bytes);
    }

pub arp_from_bytes : List ℕ → Option Arp
unfolding arp_header_at
arp_from_bytes bytes =
    if leb 28 (length bytes)
    then some (record { header = arp_header_at bytes; payload = drop 28 bytes })
    else none

pub arp_to_bytes : Arp → List ℕ
arp_to_bytes a =
    let h = a.header in
    h.htype.b0
    ∷ h.htype.b1
    ∷ h.ptype.b0
    ∷ h.ptype.b1
    ∷ h.hlen
    ∷ h.plen
    ∷ h.oper.b0
    ∷ h.oper.b1
    ∷ (h.src_mac ++ (h.src_ip ++ (h.dst_mac ++ (h.dst_ip ++ a.payload))))

module _ (mac_addr ip_addr : List ℕ) where
  -- The test and the response of `reply_loop`.
  unfoldable pub for_host : Arp → Bool
  for_host packet = get16 packet.header.oper == 1 && equals packet.header.dst_ip ip_addr

  unfoldable pub response : Arp → Arp
  response packet = record packet {
    header = record packet.header {
      oper = new16 2;
      dst_mac = packet.header.src_mac;
      dst_ip = packet.header.src_ip;
      src_mac = mac_addr;
      src_ip = ip_addr;
    };
  }

  unfoldable pub response_to : List ℕ → Option Arp
  unfolding arp_from_bytes for_host response
  response_to bytes = elim (arp_from_bytes bytes) [
    | none ↦ none
    | some packet ↦ if for_host packet then some (response packet) else none
  ]

-- Why a loop that answers ends, and where: `break` on an error of the link.
pub data Answering {ℓ} (S : Type ℓ) : Type ℓ where
  broke : S → Answering S
  listening : S → Answering S
  crashed : Answering S

-- The inner loop of `reply_loop`, for `fuel` rounds; the result of the write is ignored.
module _ {ℓ} {S : Type ℓ} (below : Resource S) (mac_addr ip_addr : List ℕ) where
  unfoldable pub reply_loop : ℕ → S → Answering S
  unfolding response_to arp_to_bytes
  reply_loop zero s = listening s
  reply_loop (suc fuel) s = elim (below.read_to_end s []) [
    | gives n bytes t ↦
        let t' : S = elim (response_to mac_addr ip_addr bytes) [
          | none ↦ t
          | some r ↦ (below.write t (arp_to_bytes r)).1
        ] in
        reply_loop fuel t'
    | fails e t ↦ broke t
    | waits ↦ listening s
    | panicked ↦ crashed
  ]
