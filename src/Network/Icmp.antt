-- ===== src/Network/Icmp.antt =====
-- Control messages, kernel/network/schemes/icmp.rs: the answer to an echo request.
pub mod Laws
mod Tests
use redox.Prelude.{
  ℕ, zero, suc, ◌+◌, ◌*◌, ◌/◌, ◌%◌, ◌^◌, List, [], ◌∷◌, ◌++◌, Option, none, some, leb, ◌==◌,
  if◌then◌else◌, length, take, drop, get_or,
}
use redox.Network.Arp.{Answering, broke, listening, crashed}
use redox.Network.Checksum.{sum, compile}
use redox.Network.Link.{gives, fails, waits, panicked, Resource}

pub record IcmpHeader : Type 0 where
  pub kind : ℕ
  pub code : ℕ
  pub checksum : ℕ
  pub words : List ℕ

pub record Icmp : Type 0 where
  pub header : IcmpHeader
  pub payload : List ℕ

-- `*(bytes.as_ptr() as *const IcmpHeader)`, of at least 8 bytes; the checksum is little endian.
pub icmp_header_at : List ℕ → IcmpHeader
icmp_header_at bytes = record {
  kind = get_or bytes 0 0;
  code = get_or bytes 1 0;
  checksum = get_or bytes 2 0 + 256 * get_or bytes 3 0;
  words = take 4 (drop 4 bytes);
}

pub icmp_from_bytes : List ℕ → Option Icmp
unfolding icmp_header_at
icmp_from_bytes bytes =
    if leb 8 (length bytes)
    then some (record { header = icmp_header_at bytes; payload = drop 8 bytes })
    else none

pub icmp_header_bytes : IcmpHeader → List ℕ
icmp_header_bytes h = h.kind ∷ h.code ∷ h.checksum % 256 ∷ h.checksum / 256 ∷ h.words

pub icmp_to_bytes : Icmp → List ℕ
unfolding icmp_header_bytes
icmp_to_bytes m = icmp_header_bytes m.header ++ m.payload

-- The response of `reply_loop`, before its checksum.
pub unchecked_response : Icmp → Icmp
unchecked_response m = record m { header = record m.header { kind = 0; checksum = 0 } }

pub icmp_response : Icmp → Icmp
unfolding unchecked_response
icmp_response m =
    let r = unchecked_response m in
    record r {
      header = record r.header {
        checksum = compile ((sum (icmp_header_bytes r.header) + sum r.payload) % 2 ^ 64);
      };
    }

pub icmp_response_to : List ℕ → Option Icmp
unfolding icmp_from_bytes icmp_response
icmp_response_to bytes = elim (icmp_from_bytes bytes) [
  | none ↦ none
  | some m ↦ if m.header.kind == 8 then some (icmp_response m) else none
]

-- The inner loop of `reply_loop`, for `fuel` rounds; the result of the write is ignored.
module _ {ℓ} {S : Type ℓ} (below : Resource S) where
  pub icmp_reply_loop : ℕ → S → Answering S
  unfolding icmp_response_to icmp_to_bytes
  icmp_reply_loop zero s = listening s
  icmp_reply_loop (suc fuel) s = elim (below.read_to_end s []) [
    | gives n bytes t ↦
        let t' : S = elim (icmp_response_to bytes) [
          | none ↦ t
          | some r ↦ (below.write t (icmp_to_bytes r)).1
        ] in
        icmp_reply_loop fuel t'
    | fails e t ↦ broke t
    | waits ↦ listening s
    | panicked ↦ crashed
  ]
