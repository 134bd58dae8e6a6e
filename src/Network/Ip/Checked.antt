-- ===== src/Network/Ip/Checked.antt =====
-- What `write` of kernel/network/schemes/ip.rs sends: its checksum is accepted and `from_bytes`
-- reads it back.
use redox.Prelude.{
  ℕ, ◌+◌, ◌%◌, ◌^◌, ◌<◌, ◌≡◌, refl, List, [], ◌∷◌, ◌++◌, length, arith, true, length-append,
}
use redox.Network.Bytes.Laws.{new16-lt}
use redox.Network.Checksum.{sum, check}
use redox.Network.Checksum.Laws.{Bytes, Bytes-append, check-compile, compile-lt, sum-lt, sum-nil}
use redox.Network.Ipv4.{
  Ipv4Header, Ipv4, packet, ipv4_from_bytes, ipv4_to_bytes, ipv4_header_bytes, ipv4_before_checksum,
  ipv4_header_len,
}
use redox.Network.Ipv4.Format.{ipv4_from_bytes-ipv4_to_bytes}
use redox.Network.Ip.{IpResource, unchecked, checked}

module _ {ℓ} {L : Type ℓ} (ip_addr : List ℕ) (r : IpResource L) (id : ℕ) (buf : List ℕ)
    (s : length ip_addr ≡ 4) (d : length r.peer_addr ≡ 4) where
  written : Ipv4
  written = checked (unchecked ip_addr r id buf)

  checksum-lt : written.header.checksum < 2 ^ 16
  unfolding written checked
  checksum-lt = compile-lt _

  -- What `write` sends is read back as the packet that it made.
  pub ipv4_from_bytes-written :
      ipv4_from_bytes (ipv4_to_bytes (checked (unchecked ip_addr r id buf)))
      ≡ packet (checked (unchecked ip_addr r id buf))
  unfolding checked unchecked written ipv4_header_len
  ipv4_from_bytes-written = ipv4_from_bytes-ipv4_to_bytes written checksum-lt s d refl

  blank : Ipv4Header
  blank = (unchecked ip_addr r id buf).header

  before-Bytes : r.proto < 256 → Bytes (ipv4_before_checksum blank)
  unfolding ipv4_before_checksum blank unchecked
  before-Bytes p =
      let size = new16-lt ((20 + length buf) % 2 ^ 16) in
      let number = new16-lt id in
      let zeros = new16-lt 0 in
      (
        omega arith,
        (
          omega arith,
          (size.0, (size.1, (number.0, (number.1, (zeros.0, (zeros.1, (omega arith, (p, tt)))))))),
        ),
      )

  -- The header that `write` sends has a checksum that `Checksum::check` accepts, where the protocol
  -- and the addresses are bytes.
  pub check-written :
      Bytes ip_addr
      → Bytes r.peer_addr
      → r.proto < 256
      → check (ipv4_header_bytes (checked (unchecked ip_addr r id buf)).header) ≡ true
  unfolding checked unchecked ipv4_header_bytes blank ipv4_before_checksum
  check-written bs bd p =
      let after = ip_addr ++ r.peer_addr in
      let before = ipv4_before_checksum blank in
      let bytes =
        Bytes-append before (0 ∷ 0 ∷ after) (before-Bytes p)
          (omega arith, (omega arith, Bytes-append ip_addr r.peer_addr bs bd)) in
      let whole = before ++ 0 ∷ 0 ∷ after in
      check-compile before after 5 ((sum whole + sum []) % 2 ^ 64) refl bytes
        (omega (arith, length-append ip_addr r.peer_addr)) (omega (arith, sum-nil, sum-lt whole))
