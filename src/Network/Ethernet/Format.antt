-- ===== src/Network/Ethernet/Format.antt =====
-- Frames to bytes and back, of kernel/network/ethernet.rs.
use redox.Prelude.{
  ℕ, ◌≡◌, refl, ap, ◌∙◌, List, ◌∷◌, ◌++◌, some, length, drop, take, arith, leb, true, length-append,
  take-append, drop-append, drop_add, get_or-drop, get_or,
}
use redox.Network.Bytes.{N16}
use redox.Network.Ethernet.{
  EthernetIi, mac_at, frame_header_at, ethernet_from_bytes, ethernet_to_bytes,
}

module _ (dst src : List ℕ) (n : N16) (payload : List ℕ) (d : length dst ≡ 6)
    (s : length src ≡ 6) where
  behind : List ℕ
  behind = n.b0 ∷ n.b1 ∷ payload

  whole : List ℕ
  whole = dst ++ (src ++ behind)

  after_dst : drop 6 whole ≡ src ++ behind
  unfolding whole behind
  after_dst = drop-append 6 dst (src ++ behind) d

  after_src : drop 12 whole ≡ behind
  unfolding behind
  after_src = drop_add 6 6 whole ∙ ap (drop 6) after_dst ∙ drop-append 6 src behind s

  after_header : drop 14 whole ≡ payload
  unfolding behind
  after_header = drop_add 12 2 whole ∙ ap (drop 2) after_src

  header_lem : frame_header_at whole ≡ record { dst = dst; src = src; ethertype = n }
  unfolding frame_header_at mac_at whole behind
  header_lem =
      let type_lo : get_or whole 12 0 ≡ n.b0 =
        get_or-drop 12 0 whole 0 ∙ ap (λ t. get_or t 0 0) after_src in
      let type_hi : get_or whole 13 0 ≡ n.b1 =
        get_or-drop 12 1 whole 0 ∙ ap (λ t. get_or t 1 0) after_src in
      let at_dst : take 6 whole ≡ dst = take-append 6 dst (src ++ behind) d in
      let at_src : take 6 (drop 6 whole) ≡ src =
        ap (take 6) after_dst ∙ take-append 6 src behind s in
      rw (type_lo, type_hi, at_dst, at_src) refl

  long : leb 14 (length whole) ≡ true
  unfolding whole behind
  long = ground (arith, length-append dst (src ++ behind), length-append src behind)

  parts :
      ethernet_from_bytes whole
      ≡ some (record { header = record { dst = dst; src = src; ethertype = n }; payload = payload })
  unfolding ethernet_from_bytes
  parts = rw (long, header_lem, after_header) refl

-- A frame whose addresses have six bytes is read back from its bytes.
pub ethernet_from_bytes-ethernet_to_bytes :
    (f : EthernetIi)
    → length f.header.dst ≡ 6
    → length f.header.src ≡ 6
    → ethernet_from_bytes (ethernet_to_bytes f) ≡ some f
unfolding ethernet_to_bytes whole behind
ethernet_from_bytes-ethernet_to_bytes f d s =
    parts f.header.dst f.header.src f.header.ethertype f.payload d s
