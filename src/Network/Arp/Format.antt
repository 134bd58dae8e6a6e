-- ===== src/Network/Arp/Format.antt =====
-- Packets to bytes and back, of kernel/network/schemes/arp.rs.
use redox.Prelude.{
  ℕ, ◌≡◌, refl, ap, ◌∙◌, List, ◌++◌, some, length, drop, take, arith, leb, true, length-append,
  take-append, drop-append, drop_add,
}
use redox.Network.Arp.{ArpHeader, Arp, arp_header_at, arp_from_bytes, arp_to_bytes}

-- The addresses have the lengths that the packed header gives them.
pub record Sized (h : ArpHeader) : Type 0 where
  pub src_mac : length h.src_mac ≡ 6
  pub src_ip : length h.src_ip ≡ 4
  pub dst_mac : length h.dst_mac ≡ 6
  pub dst_ip : length h.dst_ip ≡ 4

module _ (a : Arp) (s : Sized a.header) where
  behind_dst_mac : List ℕ
  behind_dst_mac = a.header.dst_ip ++ a.payload

  behind_src_ip : List ℕ
  behind_src_ip = a.header.dst_mac ++ behind_dst_mac

  behind_src_mac : List ℕ
  behind_src_mac = a.header.src_ip ++ behind_src_ip

  whole : List ℕ
  whole = arp_to_bytes a

  at_src_ip : drop 14 whole ≡ behind_src_mac
  unfolding whole arp_to_bytes behind_src_mac behind_src_ip behind_dst_mac
  at_src_ip = drop-append 6 a.header.src_mac behind_src_mac s.src_mac

  at_dst_mac : drop 18 whole ≡ behind_src_ip
  unfolding behind_src_mac
  at_dst_mac =
      drop_add 14 4 whole
      ∙ ap (drop 4) at_src_ip
      ∙ drop-append 4 a.header.src_ip behind_src_ip s.src_ip

  at_dst_ip : drop 24 whole ≡ behind_dst_mac
  unfolding behind_src_ip
  at_dst_ip =
      drop_add 18 6 whole
      ∙ ap (drop 6) at_dst_mac
      ∙ drop-append 6 a.header.dst_mac behind_dst_mac s.dst_mac

  at_payload : drop 28 whole ≡ a.payload
  unfolding behind_dst_mac
  at_payload =
      drop_add 24 4 whole ∙ ap (drop 4) at_dst_ip ∙ drop-append 4 a.header.dst_ip a.payload s.dst_ip

  header_lem : arp_header_at whole ≡ a.header
  unfolding arp_header_at whole arp_to_bytes behind_src_mac behind_src_ip behind_dst_mac
  header_lem =
      let src_mac : take 6 (drop 8 whole) ≡ a.header.src_mac =
        take-append 6 a.header.src_mac behind_src_mac s.src_mac in
      let src_ip : take 4 (drop 14 whole) ≡ a.header.src_ip =
        ap (take 4) at_src_ip ∙ take-append 4 a.header.src_ip behind_src_ip s.src_ip in
      let dst_mac : take 6 (drop 18 whole) ≡ a.header.dst_mac =
        ap (take 6) at_dst_mac ∙ take-append 6 a.header.dst_mac behind_dst_mac s.dst_mac in
      let dst_ip : take 4 (drop 24 whole) ≡ a.header.dst_ip =
        ap (take 4) at_dst_ip ∙ take-append 4 a.header.dst_ip a.payload s.dst_ip in
      rw (src_mac, src_ip, dst_mac, dst_ip) refl

  long : leb 28 (length whole) ≡ true
  unfolding whole arp_to_bytes behind_src_mac behind_src_ip behind_dst_mac
  long = ground (
    arith,
    length-append a.header.src_mac behind_src_mac,
    length-append a.header.src_ip behind_src_ip,
    length-append a.header.dst_mac behind_dst_mac,
    length-append a.header.dst_ip a.payload,
    s.src_mac,
    s.src_ip,
    s.dst_mac,
    s.dst_ip,
  )

  -- A packet whose addresses have six and four bytes is read back from its bytes.
  pub arp_from_bytes-arp_to_bytes : arp_from_bytes (arp_to_bytes a) ≡ some a
  unfolding arp_from_bytes whole
  arp_from_bytes-arp_to_bytes = rw (arp_from_bytes, long, header_lem, at_payload) refl
