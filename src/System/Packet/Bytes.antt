-- ===== src/System/Packet/Bytes.antt =====
-- Packets to bytes and back, crates/system/scheme.rs.
use redox.Prelude.{ℕ, zero, suc, ◌/◌, ◌^◌, ◌<◌, ◌≡◌, refl, ap, List, ◌++◌, length, arith}
use redox.System.Packet.{Packet, word_bytes, word_at, packet_bytes, packet_at}

pub length-word_bytes : (n v : ℕ) → length (word_bytes n v) ≡ n
unfolding word_bytes
length-word_bytes zero v = refl
length-word_bytes (suc n) v = ap suc (length-word_bytes n (v / 256))

word_at-word_bytes : (v : ℕ) → v < 2 ^ 64 → word_at (word_bytes 8 v) ≡ v
unfolding word_at word_bytes
word_at-word_bytes v h = omega arith

-- The words of a packet are machine words.
pub record Words (p : Packet) : Type 0 where
  pub id : p.id < 2 ^ 64
  pub a : p.a < 2 ^ 64
  pub b : p.b < 2 ^ 64
  pub c : p.c < 2 ^ 64
  pub d : p.d < 2 ^ 64

module _ (p : Packet) where
  pub length-packet_bytes : length (packet_bytes p) ≡ 40
  unfolding packet_bytes word_bytes
  length-packet_bytes = refl

  -- A packet of machine words is read back from its bytes, whatever follows them.
  pub packet_at-packet_bytes : (rest : List ℕ) → Words p → packet_at (packet_bytes p ++ rest) ≡ p
  unfolding packet_at packet_bytes word_bytes word_at
  packet_at-packet_bytes rest w =
      rw
        (
          word_at-word_bytes p.id w.id,
          word_at-word_bytes p.a w.a,
          word_at-word_bytes p.b w.b,
          word_at-word_bytes p.c w.c,
          word_at-word_bytes p.d w.d,
        )
        refl
