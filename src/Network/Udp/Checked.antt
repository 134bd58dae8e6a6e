-- ===== src/Network/Udp/Checked.antt =====
-- What `write` of kernel/network/schemes/udp/main.rs sends.
use redox.Prelude.{
  ℕ, ◌+◌, ◌*◌, ◌/◌, ◌%◌, ◌^◌, ◌<◌, ◌≡◌, refl, ap, ◌∙◌, sym, true, List, [], ◌∷◌, ◌++◌, some, length,
  leb, arith, length-append, append_assoc, subst,
}
use redox.Network.Bytes.{new16}
use redox.Network.Bytes.Laws.{new16-lt}
use redox.Network.Checksum.{sum, compile, check}
use redox.Network.Checksum.Laws.{Bytes, Bytes-append, check-compile, compile-lt, sum-append, sum-lt}
use redox.Network.Udp.{
  Udp, udp_header_at, udp_from_bytes, udp_ports, udp_header_bytes, udp_to_bytes, UdpResource,
  n16_bytes, unchecked, datagram_sum, datagram,
}

-- A datagram whose checksum has 16 bits is read back from its bytes.
pub udp_from_bytes-udp_to_bytes :
    (u : Udp) → u.header.checksum < 2 ^ 16 → udp_from_bytes (udp_to_bytes u) ≡ some u
unfolding udp_from_bytes udp_header_at udp_to_bytes udp_header_bytes udp_ports
udp_from_bytes-udp_to_bytes u c =
    let long : leb 8 (length (udp_to_bytes u)) ≡ true = ground arith in
    let e : u.header.checksum % 256 + 256 * (u.header.checksum / 256) ≡ u.header.checksum =
      omega arith in
    rw (udp_from_bytes, long, e) refl

-- The bytes that the checksum covers: the pseudo header, that is the addresses, the protocol and
-- the length, and the datagram.
abbrev pub covered {ℓ} : {S : Type ℓ} → List ℕ → UdpResource S → Udp → List ℕ
covered ip_addr r u =
    ip_addr
    ++ (r.peer_addr
        ++ (n16_bytes (new16 0x11)
            ++ (n16_bytes (new16 ((8 + length u.payload) % 2 ^ 16)) ++ udp_to_bytes u)))

n16_bytes-Bytes : (v : ℕ) → Bytes (n16_bytes (new16 v))
unfolding n16_bytes
n16_bytes-Bytes v = let b = new16-lt v in (b.0, (b.1, tt))

length-n16_bytes : (v : ℕ) → length (n16_bytes (new16 v)) ≡ 2
unfolding n16_bytes
length-n16_bytes v = refl

module _ {ℓ} {S : Type ℓ} (ip_addr : List ℕ) (r : UdpResource S) (buf : List ℕ)
    (s : length ip_addr ≡ 4) (d : length r.peer_addr ≡ 4) (bs : Bytes ip_addr)
    (bd : Bytes r.peer_addr) (bb : Bytes buf) (short : length buf < 2 ^ 39) where
  blank : Udp
  blank = unchecked r buf

  proto : List ℕ
  proto = n16_bytes (new16 0x11)

  size : List ℕ
  size = n16_bytes (new16 ((8 + length buf) % 2 ^ 16))

  ports-Bytes : Bytes (udp_ports blank.header)
  unfolding udp_ports blank unchecked
  ports-Bytes =
      let src = new16-lt r.host_port in
      let dst = new16-lt r.peer_port in
      let len = new16-lt ((8 + length buf) % 2 ^ 16) in
      (src.0, (src.1, (dst.0, (dst.1, (len.0, (len.1, tt))))))

  header-Bytes : Bytes (udp_header_bytes blank.header)
  unfolding udp_header_bytes blank unchecked
  header-Bytes =
      Bytes-append (udp_ports blank.header) (0 ∷ 0 ∷ []) ports-Bytes
        (omega arith, (omega arith, tt))

  length-header : length (udp_header_bytes blank.header) ≡ 8
  unfolding udp_header_bytes udp_ports
  length-header = refl

  datagram-Bytes : Bytes (udp_header_bytes blank.header ++ buf)
  datagram-Bytes = Bytes-append (udp_header_bytes blank.header) buf header-Bytes bb

  -- The sum over the tail of the pseudo header and the datagram.
  tail : List ℕ
  tail = proto ++ (size ++ (udp_header_bytes blank.header ++ buf))

  length-tail : length tail ≡ 12 + length buf
  unfolding tail proto size
  length-tail = omega (
    arith,
    length-append proto (size ++ (udp_header_bytes blank.header ++ buf)),
    length-append size (udp_header_bytes blank.header ++ buf),
    length-append (udp_header_bytes blank.header) buf,
    length-header,
    length-n16_bytes 0x11,
    length-n16_bytes ((8 + length buf) % 2 ^ 16),
  )

  tail-Bytes : Bytes tail
  unfolding tail proto size
  tail-Bytes =
      Bytes-append proto (size ++ (udp_header_bytes blank.header ++ buf)) (n16_bytes-Bytes 0x11) (
        Bytes-append size (udp_header_bytes blank.header ++ buf)
          (n16_bytes-Bytes ((8 + length buf) % 2 ^ 16)) datagram-Bytes)

  sum-tail : sum tail ≡ sum proto + (sum size + (sum (udp_header_bytes blank.header) + sum buf))
  unfolding tail proto size
  sum-tail =
      let header = udp_header_bytes blank.header in
      let rest =
        Bytes-append size (header ++ buf) (n16_bytes-Bytes ((8 + length buf) % 2 ^ 16))
          datagram-Bytes in
      omega (
        arith,
        length-append proto (size ++ (header ++ buf)),
        length-tail,
        sum-append proto (size ++ (header ++ buf)) 1 (length-n16_bytes 0x11) (n16_bytes-Bytes 0x11)
            rest (omega (arith, length-tail)),
        sum-append size (header ++ buf) 1 (length-n16_bytes ((8 + length buf) % 2 ^ 16))
            (n16_bytes-Bytes ((8 + length buf) % 2 ^ 16)) datagram-Bytes
            (omega (arith, length-tail, length-append proto (size ++ (header ++ buf)))),
        sum-append header buf 4 length-header header-Bytes bb
            (omega (arith, length-header, length-append header buf)),
      )

  whole : List ℕ
  whole = ip_addr ++ (r.peer_addr ++ tail)

  length-whole : length whole ≡ 20 + length buf
  unfolding whole
  length-whole = omega (
    arith,
    length-append ip_addr (r.peer_addr ++ tail),
    length-append r.peer_addr tail,
    length-tail,
  )

  sum-whole : datagram_sum ip_addr r blank ≡ sum whole
  unfolding datagram_sum blank unchecked whole proto size
  sum-whole =
      let rest = Bytes-append r.peer_addr tail bd tail-Bytes in
      omega (
        arith,
        sum-lt whole,
        sum-tail,
        sum-append ip_addr (r.peer_addr ++ tail) 2 s bs rest (omega (arith, length-whole)),
        sum-append r.peer_addr tail 2 d bd tail-Bytes
            (omega (arith, length-append r.peer_addr tail, length-tail)),
      )

  before : List ℕ
  before = ip_addr ++ (r.peer_addr ++ (proto ++ (size ++ udp_ports blank.header)))

  -- The checksum field behind the ports.
  before-append :
      (a b : ℕ)
      → before ++ a ∷ b ∷ buf
        ≡ ip_addr ++ (r.peer_addr ++ (proto ++ (size ++ (udp_ports blank.header ++ a ∷ b ∷ buf))))
  unfolding before proto size n16_bytes udp_ports
  before-append a b =
      let middle = proto ++ (size ++ udp_ports blank.header) in
      append_assoc ip_addr (r.peer_addr ++ middle) (a ∷ b ∷ buf)
      ∙ ap (λ t. ip_addr ++ t) (append_assoc r.peer_addr middle (a ∷ b ∷ buf))

  before_whole : before ++ 0 ∷ 0 ∷ buf ≡ whole
  unfolding whole tail udp_header_bytes blank unchecked udp_ports
  before_whole = before-append 0 0

  length-before : length before ≡ 2 * 9
  unfolding before proto size udp_ports
  length-before = omega (
    arith,
    length-append ip_addr (r.peer_addr ++ (proto ++ (size ++ udp_ports blank.header))),
    length-append r.peer_addr (proto ++ (size ++ udp_ports blank.header)),
    length-append proto (size ++ udp_ports blank.header),
    length-append size (udp_ports blank.header),
    length-n16_bytes 0x11,
    length-n16_bytes ((8 + length buf) % 2 ^ 16),
  )

  whole-Bytes : Bytes whole
  unfolding whole
  whole-Bytes =
      Bytes-append ip_addr (r.peer_addr ++ tail) bs (Bytes-append r.peer_addr tail bd tail-Bytes)

  check-before :
      let t = datagram_sum ip_addr r blank in
      check (before ++ compile t % 256 ∷ compile t / 256 ∷ buf) ≡ true
  check-before =
      check-compile before buf 9 (datagram_sum ip_addr r blank) length-before
        (subst Bytes (sym before_whole) whole-Bytes)
        (subst (λ t. length t < 2 ^ 40) (sym before_whole) (omega (arith, length-whole)))
        (sum-whole ∙ ap sum (sym before_whole))

  -- For data and addresses of bytes, addresses of four bytes and fewer than 2 ^ 39 bytes of data:
  -- `Checksum::check` accepts the pseudo header with the datagram that `write` sends, and the peer
  -- reads the datagram back from its bytes.
  pub check-datagram :
      (check (covered ip_addr r (datagram ip_addr r buf)) ≡ true)
      × (udp_from_bytes (udp_to_bytes (datagram ip_addr r buf)) ≡ some (datagram ip_addr r buf))
  unfolding datagram udp_to_bytes udp_header_bytes blank unchecked proto size udp_ports
  check-datagram =
      let c = compile (datagram_sum ip_addr r blank) in
      (
        subst (λ t. check t ≡ true) (before-append (c % 256) (c / 256)) check-before,
        udp_from_bytes-udp_to_bytes (datagram ip_addr r buf) (compile-lt _),
      )
