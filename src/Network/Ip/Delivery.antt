-- ===== src/Network/Ip/Delivery.antt =====
-- What one host writes, its peer reads, through kernel/network/schemes/ip.rs and ethernet.rs.
use redox.Prelude.{
  ℕ, suc, ◌+◌, ◌%◌, ◌^◌, ◌<◌, ◌≡◌, refl, ap, ◌∙◌, sym, List, [], ◌∷◌, ◌++◌, length, arith, true,
  ◌==◌,
}
use redox.Prelude.Results.{ok}
use redox.Network.Bytes.Laws.{equals_iff}
use redox.Network.Link.{Reading, gives, Resource, NetworkResource, card, GivesPackets}
use redox.Network.Ethernet
use redox.Network.Ethernet.{EthernetResource, ethernet, frame, ethernet_to_bytes}
use redox.Network.Ethernet.Delivery.{Peers, AllPassed, sent, on_wire, read_to_end-write}
use redox.Network.Ipv4.{ipv4_to_bytes}
use redox.Network.Ip.{
  IpResource, arrives, wanted, read_packets, read_to_end, write, unchecked, checked,
}
use redox.Network.Ip.Checked.{ipv4_from_bytes-written}

-- `a` on the host `ip_a` and `b` on the host `ip_b` speak to each other.
pub record IpPeers {ℓ κ} {L : Type ℓ} {M : Type κ} (ip_a ip_b : List ℕ) (a : IpResource L)
    (b : IpResource M) : Type 0 where
  pub length_a : length ip_a ≡ 4
  pub length_b : length ip_b ≡ 4
  pub to : a.peer_addr ≡ ip_b
  pub from : b.peer_addr ≡ ip_a
  pub same_proto : a.proto ≡ b.proto

abbrev pub ip_sent {ℓ} : {L : Type ℓ} → List ℕ → IpResource L → List ℕ → List ℕ
ip_sent ip_a a buf = ipv4_to_bytes (checked (unchecked ip_a a ((a.id + 1) % 2 ^ 16) buf))

module _ {ℓ κ} {L : Type ℓ} {M : Type κ} (below : Resource M) (ip_a ip_b : List ℕ)
    (a : IpResource L) (b : IpResource M) (p : IpPeers ip_a ip_b a b) where
  wanted-unchecked :
      (id : ℕ) (buf : List ℕ) → wanted ip_b b (checked (unchecked ip_a a id buf)).header ≡ true
  unfolding wanted arrives checked unchecked
  wanted-unchecked id buf =
      let to_b = (equals_iff a.peer_addr ip_b (ap length p.to)).1 p.to in
      let from_a = (equals_iff ip_a b.peer_addr (ap length (sym p.from))).1 (sym p.from) in
      let proto : (a.proto == b.proto) ≡ true = ground (arith, p.same_proto) in
      rw (to_b, from_a, proto) refl

  pub read_packets-sent :
      (buf vec : List ℕ) (fuel n : ℕ) (l : M)
      → below.read_to_end b.link [] ≡ gives n (ip_sent ip_a a buf) l
      → read_packets below ip_b (suc fuel) b vec
        ≡ gives (length buf) (vec ++ buf) (record b { link = l })
  unfolding read_packets checked unchecked
  read_packets-sent buf vec fuel n l e =
      let id = (a.id + 1) % 2 ^ 16 in
      let d : length a.peer_addr ≡ 4 = ap length p.to ∙ p.length_b in
      rw
        (
          read_packets,
          e,
          ipv4_from_bytes-written ip_a a id buf p.length_a d,
          wanted-unchecked id buf,
        )
        refl

pub read_to_end-idle {ℓ} :
    {L : Type ℓ} (below : Resource L) (ip_addr : List ℕ) (r : IpResource L) (vec : List ℕ)
    (fuel : ℕ)
    → r.pending ≡ []
    → read_to_end below ip_addr fuel r vec ≡ read_packets below ip_addr fuel r vec
unfolding read_to_end
read_to_end-idle below ip_addr r vec fuel e = simp (read_to_end, e)

-- A resource on a link on a network card.
abbrev pub Host : Type 0
Host = IpResource (EthernetResource NetworkResource)

-- The frame that `a` sends for `buf`, from the host with `mac_a` and `ip_a`.
abbrev pub frame_for : List ℕ → List ℕ → Host → List ℕ → List ℕ
frame_for mac_a ip_a a buf = sent mac_a a.link (ip_sent ip_a a buf)

abbrev pub host_on_wire : Host → List (List ℕ) → Host
host_on_wire b packets = record b { link = on_wire b.link packets }

-- What `a` is behind a write, and behind what `sync` of the card, `nic`, did to its queues.
abbrev pub writer : (NetworkResource → NetworkResource) → List ℕ → List ℕ → Host → List ℕ → Host
writer nic mac_a ip_a a buf = record a {
  id = (a.id + 1) % 2 ^ 16;
  link = record a.link {
    network = nic (record a.link.network {
      outbound = a.link.network.outbound ++ frame_for mac_a ip_a a buf ∷ [];
    });
  };
}

module _ (nic_a nic_b : NetworkResource → NetworkResource)
    (receive_a receive_b : NetworkResource → List ℕ → Reading NetworkResource)
    (mac_a mac_b ip_a ip_b : List ℕ) (a b : Host) where
  write-frame :
      (fuel_a : ℕ) (buf : List ℕ)
      → write (ethernet (card nic_a receive_a) mac_a fuel_a) ip_a a buf
        ≡ (ok (length buf), writer nic_a mac_a ip_a a buf)
  unfolding write ethernet Ethernet.write card redox.Network.Link.write
  write-frame fuel_a buf = refl

  -- Between hosts whose resources name each other, over links that are peers: `write` returns the
  -- length of the data, counts its packets, queues one frame behind those that are to go, and syncs
  -- the card; and `read_to_end` of the other host, whose card has this frame behind frames that its
  -- link passes over, adds to its vector the data that was written, and returns its length. Here
  -- `read_to_end` on the reader's card, which is a parameter, is to give the packets that have come
  -- whole and in turn. The reader has nothing pending, its loop has a round, and the loop of its link
  -- a round for each frame that is passed over and one more.
  pub write-read_to_end :
      (fuel_a fuel_b n : ℕ) (buf vec : List ℕ) (skipped rest : List (List ℕ))
      → GivesPackets receive_b
      → Peers mac_a mac_b a.link b.link
      → IpPeers ip_a ip_b a b
      → AllPassed mac_b b.link skipped
      → length skipped < fuel_b
      → b.pending ≡ []
      → b.link.pending ≡ []
      → (write (ethernet (card nic_a receive_a) mac_a fuel_a) ip_a a buf
          ≡ (ok (length buf), writer nic_a mac_a ip_a a buf))
        × (read_to_end
              (ethernet (card nic_b receive_b) mac_b fuel_b)
              ip_b
              (suc n)
              (host_on_wire b (skipped ++ frame_for mac_a ip_a a buf ∷ rest))
              vec
            ≡ gives (length buf) (vec ++ buf) (host_on_wire b rest))
  unfolding ethernet
  write-read_to_end fuel_a fuel_b n buf vec skipped rest whole link p passed fuel idle idle_link =
      let b' = host_on_wire b (skipped ++ frame_for mac_a ip_a a buf ∷ rest) in
      let below = ethernet (card nic_b receive_b) mac_b fuel_b in
      let back : IpPeers ip_a ip_b a b' = record {
        length_a = p.length_a;
        length_b = p.length_b;
        to = p.to;
        from = p.from;
        same_proto = p.same_proto;
      } in
      (
        write-frame fuel_a buf,
        read_to_end-idle below ip_b b' vec (suc n) idle
            ∙ read_packets-sent below ip_a ip_b a b' back buf vec n (length (ip_sent ip_a a buf))
                (on_wire b.link rest)
                (read_to_end-write nic_b receive_b whole mac_b b.link mac_a a.link
                  (ip_sent ip_a a buf) [] skipped rest fuel_b link passed fuel idle_link),
      )
