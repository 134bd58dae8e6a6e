-- ===== src/Network/Tcp/Format.antt =====
-- Segments to bytes and back, of kernel/network/schemes/tcp/main.rs.
use redox.Prelude.{
  ℕ, ◌+◌, ◌-◌, ◌*◌, ◌/◌, ◌%◌, ◌^◌, ◌<◌, ◌≡◌, refl, List, ◌++◌, length, drop, arith, length-append,
  take-append_left, drop-append_left, leb, ◌&&◌, true, append_assoc, drop_add,
}
use redox.Network.Bytes.{get16, get32}
use redox.Network.Bytes.Laws.{get16-new16, get32-new32}
use redox.Network.Checksum.Laws.{compile-lt}
use redox.Network.Tcp.{
  TcpHeader, Tcp, header_bytes, header_at, header_len, parsed, from_bytes, to_bytes, Resource,
  unchecked, segment, segment_sum, masked,
}

header_at_lem :
    (h : TcpHeader) (rest : List ℕ) → h.checksum < 2 ^ 16 → header_at (header_bytes h ++ rest) ≡ h
unfolding header_at header_bytes
header_at_lem h rest lt =
    let e : h.checksum % 256 + 256 * (h.checksum / 256) ≡ h.checksum = omega arith in rw e refl

length-header_bytes :
    (h : TcpHeader) (rest : List ℕ) → length (header_bytes h ++ rest) ≡ 20 + length rest
unfolding header_bytes
length-header_bytes h rest = omega arith

drop-header_bytes : (h : TcpHeader) (rest : List ℕ) → drop 20 (header_bytes h ++ rest) ≡ rest
unfolding header_bytes
drop-header_bytes h rest = refl

from_bytes_lem :
    (h : TcpHeader) (options bytes : List ℕ)
    → h.checksum < 2 ^ 16
    → header_len h ≡ 20 + length options
    → from_bytes (header_bytes h ++ options ++ bytes)
      ≡ parsed (record { header = h; options = options; payload = bytes })
unfolding from_bytes
from_bytes_lem h options bytes lt e =
    let rest = options ++ bytes in
    let size : 20 + length rest ≡ 20 + length options + length bytes =
      omega (arith, length-append options bytes) in
    let n : 20 + length options - 20 ≡ length options = omega arith in
    let long : leb 20 (20 + length options + length bytes) ≡ true = ground arith in
    let inside : (leb 20 (20 + length options)
          && leb (20 + length options) (20 + length options + length bytes))
        ≡ true =
      ground arith in
    rw
      (
        append_assoc (header_bytes h) options bytes,
        header_at_lem h rest lt,
        length-header_bytes h rest,
        size,
        long,
        e,
        inside,
        n,
        drop-header_bytes h rest,
        drop_add 20 (length options) (header_bytes h ++ rest),
        drop-header_bytes h rest,
        take-append_left options bytes,
        drop-append_left options bytes,
      )
      refl

-- A segment whose checksum fits 16 bits and whose flags give the length of its options is read back
-- by `from_bytes` from what `to_bytes` makes of it.
pub from_bytes-to_bytes :
    (t : Tcp)
    → t.header.checksum < 2 ^ 16
    → header_len t.header ≡ 20 + length t.options
    → from_bytes (to_bytes t) ≡ parsed t
unfolding to_bytes
from_bytes-to_bytes t lt e = from_bytes_lem t.header t.options t.payload lt e

module _ (r : Resource) (flags : ℕ) (bytes : List ℕ) where
  length-segment : flags < 2 ^ 12 → header_len (segment r flags bytes).header ≡ 20
  unfolding segment unchecked header_len
  length-segment h = omega (arith, get16-new16 (0x5000 + flags) (omega arith))

  -- What a call sends is read back by the peer as the segment that was made.
  pub from_bytes-segment :
      flags < 2 ^ 12
      → from_bytes (to_bytes (segment r flags bytes)) ≡ parsed (segment r flags bytes)
  unfolding segment unchecked
  from_bytes-segment h =
      from_bytes-to_bytes (segment r flags bytes)
        (compile-lt (segment_sum r (unchecked r flags bytes))) (length-segment h)

  pub src-segment : r.host_port < 2 ^ 16 → get16 (segment r flags bytes).header.src ≡ r.host_port
  unfolding segment unchecked
  src-segment h = get16-new16 r.host_port h

  pub dst-segment : r.peer_port < 2 ^ 16 → get16 (segment r flags bytes).header.dst ≡ r.peer_port
  unfolding segment unchecked
  dst-segment h = get16-new16 r.peer_port h

  pub sequence-segment :
      r.sequence < 2 ^ 32 → get32 (segment r flags bytes).header.sequence ≡ r.sequence
  unfolding segment unchecked
  sequence-segment h = get32-new32 r.sequence h

  pub ack_num-segment :
      r.acknowledge < 2 ^ 32 → get32 (segment r flags bytes).header.ack_num ≡ r.acknowledge
  unfolding segment unchecked
  ack_num-segment h = get32-new32 r.acknowledge h

  pub masked-segment :
      flags < 2 ^ 12
      → masked (segment r flags bytes) ≡ flags / 2 % 2 * 2 + flags / 8 % 2 * 8 + flags / 16 % 2 * 16
  unfolding segment unchecked masked
  masked-segment h = let e = get16-new16 (0x5000 + flags) (omega arith) in rw e (omega arith)

  pub payload-segment : (segment r flags bytes).payload ≡ bytes
  unfolding segment unchecked
  payload-segment = refl
