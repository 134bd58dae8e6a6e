-- ===== src/Network/Link.antt =====
-- What the layers of the network call on the resource below them, and kernel/network/scheme.rs, the
-- resource of a network card: the queues of the packets that have come and that are to go.
use redox.Prelude.{ℕ, zero, suc, List, [], ◌∷◌, ◌++◌, Option, none, some, length, ◌≡◌}
use redox.Prelude.Results.{Result, ok}

-- A call that reads: the number that it returns, the vector and the resource behind it.
pub data Reading {ℓ} (S : Type ℓ) : Type ℓ where
  gives : ℕ → List ℕ → S → Reading S
  fails : ℕ → S → Reading S
  waits : Reading S
  panicked : Reading S

-- What the layers call on the resource below them, whatever that is. The trait Resource of
-- kernel/fs/resource.rs declares dup and write, but no read_to_end, which the layers call on it and
-- which adds to a vector: what it does on a resource below is a parameter.
pub record Resource {ℓ} (S : Type ℓ) : Type ℓ where
  pub dup : S → Result S
  pub read_to_end : S → List ℕ → Reading S
  pub write : S → List ℕ → Result ℕ × S

pub record NetworkResource : Type 0 where
  pub inbound : List (List ℕ)
  pub outbound : List (List ℕ)

-- `while i < bytes.len() && i < buf.len() { buf[i] = bytes[i]; i += 1; }`
pub copy_packet : List ℕ → List ℕ → List ℕ
copy_packet buf [] = buf
copy_packet [] (b ∷ bytes) = []
copy_packet (x ∷ buf) (b ∷ bytes) = b ∷ copy_packet buf bytes

-- `nic` is what `sync` of the card does to the queues.
module _ (nic : NetworkResource → NetworkResource) where
  -- The loop of `read`, on fuel: without a packet, other contexts run until the next round.
  pub read : ℕ → NetworkResource → List ℕ → Option (List ℕ × ℕ × NetworkResource)
  unfolding copy_packet
  read zero r buf = none
  read (suc fuel) r buf =
      let synced = nic r in
      let rest = read fuel synced buf in
      elim synced.inbound [
        | [] ↦ rest
        | bytes ∷ inbound ↦
            some (copy_packet buf bytes, length bytes, record synced { inbound = inbound })
      ]

  unfoldable pub write : NetworkResource → List ℕ → Result ℕ × NetworkResource
  write r buf = (ok (length buf), nic (record r { outbound = r.outbound ++ buf ∷ [] }))

pub dup : NetworkResource → Result NetworkResource
dup r = ok (record { inbound = r.inbound; outbound = r.outbound })

-- The card as the resource below a layer; what `read_to_end` does on it is a parameter.
unfoldable pub card :
    (nic : NetworkResource → NetworkResource)
    → (NetworkResource → List ℕ → Reading NetworkResource)
    → Resource NetworkResource
unfolding write dup
card nic receive = record { dup = dup; read_to_end = receive; write = write nic }

-- `read_to_end` into an empty vector takes the packet that came first, and gives it whole.
abbrev pub GivesPackets : (NetworkResource → List ℕ → Reading NetworkResource) → Type 0
GivesPackets receive =
    (bytes : List ℕ) (inbound outbound : List (List ℕ))
    → receive (record { inbound = bytes ∷ inbound; outbound = outbound }) []
      ≡ gives (length bytes) bytes (record { inbound = inbound; outbound = outbound })
