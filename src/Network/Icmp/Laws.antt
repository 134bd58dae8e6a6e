-- ===== src/Network/Icmp/Laws.antt =====
-- The answer to an echo request, of kernel/network/schemes/icmp.rs.
use redox.Prelude.{
  ℕ, ◌+◌, ◌*◌, ◌/◌, ◌%◌, ◌^◌, ◌<◌, ◌≡◌, refl, true, List, [], ◌∷◌, ◌++◌, some, length, leb, arith,
  length-append, take-append, drop-append,
}
use redox.Network.Checksum.{sum, check}
use redox.Network.Checksum.Laws.{Bytes, Bytes-append, check-compile, compile-lt, sum-append, sum-lt}
use redox.Network.Icmp.{
  Icmp, icmp_header_at, icmp_from_bytes, icmp_header_bytes, icmp_to_bytes, unchecked_response,
  icmp_response, icmp_response_to,
}

-- A message whose checksum has 16 bits and whose header has its four last bytes is read back from
-- its bytes.
pub icmp_from_bytes-icmp_to_bytes :
    (m : Icmp)
    → m.header.checksum < 2 ^ 16
    → length m.header.words ≡ 4
    → icmp_from_bytes (icmp_to_bytes m) ≡ some m
unfolding icmp_from_bytes icmp_header_at icmp_to_bytes icmp_header_bytes
icmp_from_bytes-icmp_to_bytes m c w =
    let long : leb 8 (length (icmp_to_bytes m)) ≡ true =
      ground (arith, length-append m.header.words m.payload) in
    let e : m.header.checksum % 256 + 256 * (m.header.checksum / 256) ≡ m.header.checksum =
      omega arith in
    let words = take-append 4 m.header.words m.payload w in
    let payload = drop-append 4 m.header.words m.payload w in
    rw (icmp_from_bytes, long, e, words, payload) refl

module _ (m : Icmp) (w : length m.header.words ≡ 4) where
  -- The checksum of the response is accepted.
  check-response :
      Bytes m.header.words
      → Bytes m.payload
      → m.header.code < 256
      → length m.payload < 2 ^ 39
      → check (icmp_to_bytes (icmp_response m)) ≡ true
  unfolding icmp_response unchecked_response icmp_to_bytes icmp_header_bytes
  check-response bw bp c short =
      let header : List ℕ = 0 ∷ m.header.code ∷ 0 ∷ 0 ∷ m.header.words in
      let after = m.header.words ++ m.payload in
      let header_Bytes : Bytes header = (omega arith, (c, (omega arith, (omega arith, bw)))) in
      let total = sum header + sum m.payload in
      let whole : sum (header ++ m.payload) ≡ total =
        sum-append header m.payload 4 (omega arith) header_Bytes bp
          (omega (arith, length-append header m.payload)) in
      check-compile (0 ∷ m.header.code ∷ []) after 1 (total % 2 ^ 64) refl
        (Bytes-append header m.payload header_Bytes bp)
        (omega (arith, length-append m.header.words m.payload))
        (omega (arith, sum-lt (header ++ m.payload)))

  -- For an echo request of bytes, with four bytes in the second half of its header and fewer than
  -- 2 ^ 39 bytes of data, the response has the kind of an echo reply and the request's code, words
  -- and data, `Checksum::check` accepts it, and it is read back from its bytes.
  pub icmp_response_to_lem :
      m.header.kind ≡ 8
      → m.header.checksum < 2 ^ 16
      → Bytes m.header.words
      → Bytes m.payload
      → m.header.code < 256
      → length m.payload < 2 ^ 39
      → let r = icmp_response m in
        (icmp_response_to (icmp_to_bytes m) ≡ some r)
        × (r.header.kind ≡ 0)
        × (r.header.code ≡ m.header.code)
        × (r.header.words ≡ m.header.words)
        × (r.payload ≡ m.payload)
        × (check (icmp_to_bytes r) ≡ true)
        × (icmp_from_bytes (icmp_to_bytes r) ≡ some r)
  unfolding icmp_response_to icmp_response unchecked_response
  icmp_response_to_lem k c bw bp code short = (
    rw (icmp_response_to, icmp_from_bytes-icmp_to_bytes m c w, k) refl,
    refl,
    refl,
    refl,
    refl,
    check-response bw bp code short,
    icmp_from_bytes-icmp_to_bytes (icmp_response m) (compile-lt _) w,
  )
