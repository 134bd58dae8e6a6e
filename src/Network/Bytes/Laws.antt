-- ===== src/Network/Bytes/Laws.antt =====
-- Round trips of the numbers in network order of kernel/network/common.rs.
use redox.Prelude.{ℕ, ◌<◌, ◌^◌, ◌≡◌, refl, arith, true, ◌↔◌, List, [], ◌∷◌, length}
use redox.Network.Bytes.{N16, N32, new16, get16, new32, get32, equals}

pub get16-new16 : (v : ℕ) → v < 2 ^ 16 → get16 (new16 v) ≡ v
unfolding get16 new16
get16-new16 v h = omega arith

pub get32-new32 : (v : ℕ) → v < 2 ^ 32 → get32 (new32 v) ≡ v
unfolding get32 new32
get32-new32 v h = omega arith

pub new16-lt : (v : ℕ) → ((new16 v).b0 < 256) × ((new16 v).b1 < 256)
unfolding new16
new16-lt v = (omega arith, omega arith)

-- `new` and `get` are inverse: a number that fits is read back from its bytes, and bytes are those
-- of the number that they hold, for 16 bits.
pub n16_round_trip :
    (v : ℕ) (n : N16)
    → v < 2 ^ 16
    → n.b0 < 256
    → n.b1 < 256
    → (get16 (new16 v) ≡ v) × (new16 (get16 n) ≡ n)
unfolding get16 new16
n16_round_trip v n h h0 h1 = (get16-new16 v h, ground arith)

-- The same for 32 bits: a number that fits is read back from its four bytes, and bytes are those of
-- the number that they hold.
pub n32_round_trip :
    (v : ℕ) (n : N32)
    → v < 2 ^ 32
    → n.b0 < 256
    → n.b1 < 256
    → n.b2 < 256
    → n.b3 < 256
    → (get32 (new32 v) ≡ v) × (new32 (get32 n) ≡ n)
unfolding get32 new32
n32_round_trip v n h h0 h1 h2 h3 = (get32-new32 v h, ground arith)

-- `equals` decides the equality of two addresses of the same length.
pub equals_iff : (xs ys : List ℕ) → length xs ≡ length ys → (equals xs ys ≡ true) ↔ (xs ≡ ys)
unfolding equals
equals_iff [] [] h = (λ _. refl, λ _. refl)
equals_iff [] (y ∷ ys) h = absurd (omega arith)
equals_iff (x ∷ xs) [] h = absurd (omega arith)
equals_iff (x ∷ xs) (y ∷ ys) h =
    let ih = equals_iff xs ys (omega arith) in (λ e. ground (arith, ih), λ e. ground (arith, ih))
