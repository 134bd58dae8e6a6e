-- ===== src/Network/Ipv4/Format.antt =====
-- Packets to bytes and back, of kernel/network/ipv4.rs.
use redox.Prelude.{
  ℕ, ◌+◌, ◌-◌, ◌*◌, ◌/◌, ◌%◌, ◌^◌, ◌<◌, ◌≡◌, refl, ap, ap₂, ◌∙◌, List, ◌++◌, length, drop, take,
  arith, leb, true, length-append, take-append, drop-append, drop_add, append_assoc,
}
use redox.Common.Slice.Laws.{get_slice_lem, get_slice_from}
use redox.Network.Ipv4.{
  Ipv4Header, Ipv4, ipv4_header_at, ipv4_header_len, packet, ipv4_from_bytes, ipv4_header_bytes,
  ipv4_parts, ipv4_before_checksum, ipv4_to_bytes,
}

module _ (h : Ipv4Header) (tail : List ℕ) (c : h.checksum < 2 ^ 16) (s : length h.src ≡ 4)
    (d : length h.dst ≡ 4) where
  whole : List ℕ
  whole = ipv4_header_bytes h ++ tail

  behind : drop 12 whole ≡ h.src ++ (h.dst ++ tail)
  unfolding whole ipv4_header_bytes ipv4_before_checksum
  behind = append_assoc h.src h.dst tail

  behind_src : drop 16 whole ≡ h.dst ++ tail
  behind_src = drop_add 12 4 whole ∙ ap (drop 4) behind ∙ drop-append 4 h.src (h.dst ++ tail) s

  behind_header : drop 20 whole ≡ tail
  behind_header = drop_add 16 4 whole ∙ ap (drop 4) behind_src ∙ drop-append 4 h.dst tail d

  header_lem : ipv4_header_at whole ≡ h
  unfolding ipv4_header_at whole ipv4_header_bytes ipv4_before_checksum
  header_lem =
      let e : h.checksum % 256 + 256 * (h.checksum / 256) ≡ h.checksum = omega arith in
      let src : take 4 (drop 12 whole) ≡ h.src =
        ap (take 4) behind ∙ take-append 4 h.src (h.dst ++ tail) s in
      let dst : take 4 (drop 16 whole) ≡ h.dst =
        ap (take 4) behind_src ∙ take-append 4 h.dst tail d in
      rw (e, src, dst) refl

  length-whole : length whole ≡ 20 + length tail
  unfolding whole ipv4_header_bytes ipv4_before_checksum
  length-whole = omega (arith, length-append (h.src ++ h.dst) tail, length-append h.src h.dst)

parts_lem :
    (h : Ipv4Header) (w options payload : List ℕ) (k : ℕ)
    → ipv4_header_len h ≡ k
    → take (k - 20) (drop 20 w) ≡ options
    → drop k w ≡ payload
    → ipv4_parts h w ≡ packet (record { header = h; options = options; payload = payload })
unfolding ipv4_parts
parts_lem h w options payload k len o p =
    rw (ipv4_parts, len, get_slice_lem w 20 k, len, get_slice_from w k, o, p) refl

-- `from_bytes` of bytes whose header, options and rest are known.
from_bytes_lem :
    (h : Ipv4Header) (w options payload : List ℕ) (k : ℕ)
    → ipv4_header_at w ≡ h
    → ipv4_header_len h ≡ k
    → leb 20 (length w) ≡ true
    → take (k - 20) (drop 20 w) ≡ options
    → drop k w ≡ payload
    → ipv4_from_bytes w ≡ packet (record { header = h; options = options; payload = payload })
unfolding ipv4_from_bytes
from_bytes_lem h w options payload k at len long o p =
    rw (ipv4_from_bytes, long, at) (parts_lem h w options payload k len o p)

-- A packet is read back from its bytes, where the addresses have four bytes, the checksum has 16
-- bits and the header length counts the options.
pub ipv4_from_bytes-ipv4_to_bytes :
    (p : Ipv4)
    → p.header.checksum < 2 ^ 16
    → length p.header.src ≡ 4
    → length p.header.dst ≡ 4
    → ipv4_header_len p.header ≡ 20 + length p.options
    → ipv4_from_bytes (ipv4_to_bytes p) ≡ packet p
unfolding ipv4_to_bytes whole
ipv4_from_bytes-ipv4_to_bytes p c s d n =
    let t = p.options ++ p.payload in
    let w = ipv4_header_bytes p.header ++ t in
    let k = 20 + length p.options in
    let tail : drop 20 w ≡ t = behind_header p.header t c s d in
    let inner : k - 20 ≡ length p.options = omega arith in
    ap ipv4_from_bytes (append_assoc (ipv4_header_bytes p.header) p.options p.payload)
    ∙ from_bytes_lem p.header w p.options p.payload k (header_lem p.header t c s d) n
        (ground (arith, length-whole p.header t c s d))
        (ap₂ take inner tail ∙ take-append (length p.options) p.options p.payload refl)
        (drop_add 20 (length p.options) w
          ∙ ap (drop (length p.options)) tail
          ∙ drop-append (length p.options) p.options p.payload refl)
