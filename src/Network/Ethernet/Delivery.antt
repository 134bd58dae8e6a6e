-- ===== src/Network/Ethernet/Delivery.antt =====
-- What one side writes, the other reads: kernel/network/schemes/ethernet.rs.
use redox.Prelude.{
  ℕ, suc, ◌^◌, ◌<◌, ◌≡◌, refl, ◌∙◌, true, false, ◌||◌, List, [], ◌∷◌, ◌++◌, none, some, length,
  arith, zero, ◌⊎◌, inl, inr,
}
use redox.Network.Bytes.{get16, new16, equals}
use redox.Network.Bytes.Laws.{get16-new16}
use redox.Network.Link.{Reading, gives, Resource, NetworkResource, card, GivesPackets}
use redox.Network.Ethernet.{
  EthernetIi, EthernetResource, ethernet_from_bytes, ethernet_to_bytes, broadcast_mac_addr, wanted,
  arrives, read_frames, read_to_end, frame,
}
use redox.Network.Ethernet.Format.{ethernet_from_bytes-ethernet_to_bytes}

-- What `a`, on the host with the address `mac_a`, writes is for `b`, on the host with `mac_b`.
pub record Peers {ℓ κ} {S : Type ℓ} {T : Type κ} (mac_a mac_b : List ℕ) (a : EthernetResource S)
    (b : EthernetResource T) : Type 0 where
  pub length_a : length mac_a ≡ 6
  pub length_peer : length a.peer_addr ≡ 6
  pub fits : a.ethertype < 2 ^ 16
  pub same_type : a.ethertype ≡ b.ethertype
  pub to : (equals a.peer_addr mac_b || equals a.peer_addr broadcast_mac_addr) ≡ true
  pub from : (equals mac_a b.peer_addr || equals b.peer_addr broadcast_mac_addr) ≡ true

-- The bytes that `a` writes for `buf`.
abbrev pub sent {ℓ} : {S : Type ℓ} → List ℕ → EthernetResource S → List ℕ → List ℕ
sent mac_a a buf = ethernet_to_bytes (frame mac_a a buf)

module _ {ℓ κ} {S : Type ℓ} {T : Type κ} (below : Resource T) (mac_a mac_b : List ℕ)
    (a : EthernetResource S) where
  parsed :
      (b : EthernetResource T) (buf : List ℕ)
      → Peers mac_a mac_b a b
      → ethernet_from_bytes (sent mac_a a buf) ≡ some (frame mac_a a buf)
  unfolding frame
  parsed b buf p =
      ethernet_from_bytes-ethernet_to_bytes (frame mac_a a buf) p.length_peer p.length_a

  wanted-frame :
      (b : EthernetResource T) (buf : List ℕ)
      → Peers mac_a mac_b a b
      → wanted mac_b b (frame mac_a a buf).header ≡ true
  unfolding wanted arrives frame
  wanted-frame b buf p =
      let e : get16 (new16 a.ethertype) ≡ b.ethertype =
        get16-new16 a.ethertype p.fits ∙ p.same_type in
      rw (e, p.to, p.from) (ground arith)

  pub read_frames-sent :
      (b : EthernetResource T) (buf vec : List ℕ) (fuel n : ℕ) (t : T)
      → Peers mac_a mac_b a b
      → below.read_to_end b.network [] ≡ gives n (sent mac_a a buf) t
      → read_frames below mac_b (suc fuel) b vec
        ≡ gives (length buf) (vec ++ buf) (record b { network = t })
  unfolding read_frames frame
  read_frames-sent b buf vec fuel n t p e =
      rw (read_frames, e, parsed b buf p, wanted-frame b buf p) refl

pub read_to_end-idle {ℓ} :
    {S : Type ℓ} (below : Resource S) (mac : List ℕ) (r : EthernetResource S) (vec : List ℕ)
    (fuel : ℕ)
    → r.pending ≡ []
    → read_to_end below mac fuel r vec ≡ read_frames below mac fuel r vec
unfolding read_to_end
read_to_end-idle below mac r vec fuel e = simp (read_to_end, e)

-- A packet that `b` passes over: too short for a frame, or a frame that it does not want.
abbrev pub Passed : List ℕ → EthernetResource NetworkResource → List ℕ → Type 0
Passed mac_b b bytes =
    (ethernet_from_bytes bytes ≡ none)
    ⊎ ((f : EthernetIi) × (ethernet_from_bytes bytes ≡ some f) × (wanted mac_b b f.header ≡ false))

abbrev pub AllPassed : List ℕ → EthernetResource NetworkResource → List (List ℕ) → Type 0
AllPassed mac_b b [] = Unit
AllPassed mac_b b (bytes ∷ packets) = Passed mac_b b bytes × AllPassed mac_b b packets

-- The resource when `packets` have come in at its card.
abbrev pub on_wire :
    EthernetResource NetworkResource → List (List ℕ) → EthernetResource NetworkResource
on_wire b packets = record b { network = record b.network { inbound = packets } }

module _ (nic : NetworkResource → NetworkResource)
    (receive : NetworkResource → List ℕ → Reading NetworkResource) (whole : GivesPackets receive)
    (mac_b : List ℕ) (b : EthernetResource NetworkResource) where
  read_frames-Passed :
      (fuel : ℕ) (bytes vec : List ℕ) (packets : List (List ℕ))
      → Passed mac_b b bytes
      → read_frames (card nic receive) mac_b (suc fuel) (on_wire b (bytes ∷ packets)) vec
        ≡ read_frames (card nic receive) mac_b fuel (on_wire b packets) vec
  unfolding read_frames wanted card
  read_frames-Passed fuel bytes vec packets (inl short) =
      let got = whole bytes packets b.network.outbound in rw (read_frames, card, got, short) refl
  read_frames-Passed fuel bytes vec packets (inr (f, e, w)) =
      let got = whole bytes packets b.network.outbound in rw (read_frames, card, got, e, w) refl

  -- Behind packets that `b` passes over, a read gives the payload that was sent, and takes them all.
  pub read_frames-delivers {ℓ} :
      {S : Type ℓ} (mac_a : List ℕ) (a : EthernetResource S) (buf vec : List ℕ)
      (skipped rest : List (List ℕ)) (fuel : ℕ)
      → Peers mac_a mac_b a b
      → AllPassed mac_b b skipped
      → length skipped < fuel
      → read_frames
          (card nic receive)
          mac_b
          fuel
          (on_wire b (skipped ++ sent mac_a a buf ∷ rest))
          vec
        ≡ gives (length buf) (vec ++ buf) (on_wire b rest)
  unfolding card
  read_frames-delivers mac_a a buf vec skipped rest zero p all h = absurd (omega arith)
  read_frames-delivers mac_a a buf vec [] rest (suc fuel) p all h =
      read_frames-sent (card nic receive) mac_a mac_b a (on_wire b (sent mac_a a buf ∷ rest)) buf
        vec fuel (length (sent mac_a a buf)) (record b.network { inbound = rest })
        (record {
          length_a = p.length_a;
          length_peer = p.length_peer;
          fits = p.fits;
          same_type = p.same_type;
          to = p.to;
          from = p.from;
        })
        (whole (sent mac_a a buf) rest b.network.outbound)
  read_frames-delivers mac_a a buf vec (bytes ∷ skipped) rest (suc fuel) p all h =
      read_frames-Passed fuel bytes vec (skipped ++ sent mac_a a buf ∷ rest) all.0
      ∙ read_frames-delivers mac_a a buf vec skipped rest fuel p all.1 (omega arith)

  -- Between peers, whose addresses have six bytes: behind packets that `b` passes over, and with a
  -- round of the loop for each of them and one more, `read_to_end` adds to the vector what the other
  -- host's `write` was given, and returns its length. Nothing is pending at `b`, and `read_to_end`
  -- on the card gives its packets in turn.
  pub read_to_end-write {ℓ} :
      {S : Type ℓ} (mac_a : List ℕ) (a : EthernetResource S) (buf vec : List ℕ)
      (skipped rest : List (List ℕ)) (fuel : ℕ)
      → Peers mac_a mac_b a b
      → AllPassed mac_b b skipped
      → length skipped < fuel
      → b.pending ≡ []
      → read_to_end
          (card nic receive)
          mac_b
          fuel
          (on_wire b (skipped ++ sent mac_a a buf ∷ rest))
          vec
        ≡ gives (length buf) (vec ++ buf) (on_wire b rest)
  read_to_end-write mac_a a buf vec skipped rest fuel p all h e =
      read_to_end-idle (card nic receive) mac_b (on_wire b (skipped ++ sent mac_a a buf ∷ rest)) vec
        fuel e
      ∙ read_frames-delivers mac_a a buf vec skipped rest fuel p all h
