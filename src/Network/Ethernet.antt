-- ===== src/Network/Ethernet.antt =====
-- Ethernet frames, kernel/network/ethernet.rs, and kernel/network/schemes/ethernet.rs. `MAC_ADDR` is
-- the address that the driver of the card has set.
pub mod Format
pub mod Delivery
use redox.Prelude.{
  ℕ, zero, suc, ◌+◌, ◌%◌, ◌^◌, Bool, true, false, ◌&&◌, ◌||◌, List, [], ◌∷◌, ◌++◌, Option, none,
  some, leb, ◌==◌, if◌then◌else◌, length, take, drop, get_or,
}
use redox.Prelude.Results.{Result, ok, err}
use redox.Network.Bytes.{N16, new16, get16, equals}
use redox.Network.Link.{Reading, gives, fails, waits, panicked, Resource}

pub record EthernetIiHeader : Type 0 where
  pub dst : List ℕ
  pub src : List ℕ
  pub ethertype : N16

pub record EthernetIi : Type 0 where
  pub header : EthernetIiHeader
  pub payload : List ℕ

-- Six bytes from `i` on.
mac_at : List ℕ → ℕ → List ℕ
mac_at bytes i = take 6 (drop i bytes)

-- `*(bytes.as_ptr() as *const EthernetIIHeader)`, of at least 14 bytes
pub frame_header_at : List ℕ → EthernetIiHeader
unfolding mac_at
frame_header_at bytes = record {
  dst = mac_at bytes 0;
  src = mac_at bytes 6;
  ethertype = record { b0 = get_or bytes 12 0; b1 = get_or bytes 13 0 };
}

unfoldable pub ethernet_from_bytes : List ℕ → Option EthernetIi
unfolding frame_header_at
ethernet_from_bytes bytes =
    if leb 14 (length bytes)
    then some (record { header = frame_header_at bytes; payload = drop 14 bytes })
    else none

pub ethernet_to_bytes : EthernetIi → List ℕ
ethernet_to_bytes f =
    f.header.dst ++ (f.header.src ++ f.header.ethertype.b0 ∷ f.header.ethertype.b1 ∷ f.payload)

abbrev pub broadcast_mac_addr : List ℕ
broadcast_mac_addr = 0xFF ∷ 0xFF ∷ 0xFF ∷ 0xFF ∷ 0xFF ∷ 0xFF ∷ []

pub record EthernetResource {ℓ} (S : Type ℓ) : Type ℓ where
  pub network : S
  pub pending : List ℕ
  pub peer_addr : List ℕ
  pub ethertype : ℕ

module _ {ℓ} {S : Type ℓ} (below : Resource S) where
  pub dup : EthernetResource S → Result (EthernetResource S)
  dup r = elim (below.dup r.network) [ ok s ↦ ok (record r { network = s }) | err e ↦ err e ]

-- The frame's type and receiver, which `open` checks too.
pub arrives : List ℕ → ℕ → EthernetIiHeader → Bool
arrives mac_addr ethertype h =
    get16 h.ethertype == ethertype && (equals h.dst mac_addr || equals h.dst broadcast_mac_addr)

module _ {ℓ} {S : Type ℓ} (mac_addr : List ℕ) where
  pub wanted : EthernetResource S → EthernetIiHeader → Bool
  unfolding arrives
  wanted r h =
      arrives mac_addr r.ethertype h
      && (equals h.src r.peer_addr || equals r.peer_addr broadcast_mac_addr)

  -- The frame that `write` makes.
  pub frame : EthernetResource S → List ℕ → EthernetIi
  frame r buf = record {
    header = record { dst = r.peer_addr; src = mac_addr; ethertype = new16 r.ethertype };
    payload = buf;
  }

module _ {ℓ} {S : Type ℓ} (below : Resource S) (mac_addr : List ℕ) where
  -- The loop of `read_to_end`, which waits when the fuel is spent.
  pub read_frames : ℕ → EthernetResource S → List ℕ → Reading (EthernetResource S)
  unfolding wanted ethernet_from_bytes
  read_frames zero r vec = waits
  read_frames (suc fuel) r vec = elim (below.read_to_end r.network []) [
    | gives n bytes s ↦
        let r' : EthernetResource S = record r { network = s } in
        let later = read_frames fuel r' vec in
        elim (ethernet_from_bytes bytes) [
          | none ↦ later
          | some f ↦
              if wanted mac_addr r f.header
              then gives (length f.payload) (vec ++ f.payload) r'
              else later
        ]
    | fails e s ↦ fails e (record r { network = s })
    | waits ↦ waits
    | panicked ↦ panicked
  ]

  pub read_to_end : ℕ → EthernetResource S → List ℕ → Reading (EthernetResource S)
  unfolding read_frames
  read_to_end fuel r vec =
      let frames = read_frames fuel r vec in
      elim r.pending [
        | [] ↦ frames
        | b ∷ bs ↦ gives (length (b ∷ bs)) (vec ++ b ∷ bs) (record r { pending = [] })
      ]

  unfoldable pub write : EthernetResource S → List ℕ → Result ℕ × EthernetResource S
  unfolding frame ethernet_to_bytes
  write r buf =
      let (result, s) = below.write r.network (ethernet_to_bytes (frame mac_addr r buf)) in
      let r' : EthernetResource S = record r { network = s } in
      elim result [ ok n ↦ (ok (length buf), r') | err e ↦ (err e, r') ]

  -- The loop of `open` without a host: the first frame that arrives names the peer.
  pub accept : ℕ → ℕ → S → Option (EthernetResource S)
  unfolding arrives ethernet_from_bytes
  accept zero ethertype s₀ = none
  accept (suc fuel) ethertype s₀ = elim (below.read_to_end s₀ []) [
    | gives n bytes s ↦
        let later = accept fuel ethertype s in
        elim (ethernet_from_bytes bytes) [
          | none ↦ later
          | some f ↦
              if arrives mac_addr ethertype f.header
              then some (record {
                network = s;
                pending = f.payload;
                peer_addr = f.header.src;
                ethertype = ethertype;
              })
              else later
        ]
    | fails e s ↦ none
    | waits ↦ none
    | panicked ↦ none
  ]

  -- The layer as a resource for the one above it.
  unfoldable pub ethernet : ℕ → Resource (EthernetResource S)
  unfolding dup read_to_end write
  ethernet fuel = record { dup = dup below; read_to_end = read_to_end fuel; write = write }
