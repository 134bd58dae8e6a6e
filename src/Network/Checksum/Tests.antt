-- ===== src/Network/Checksum/Tests.antt =====
-- A header of four words, the checksum third.
use redox.Prelude.{ℕ, ◌%◌, ◌/◌, ◌≡◌, true, List, [], ◌∷◌, ◌++◌, arith}
use redox.Network.Checksum.{calculate, check}
use redox.Network.Checksum.Laws.{check-calculate}

abbrev front : List ℕ
front = 0x45 ∷ 0x00 ∷ 0xFF ∷ 0xFE ∷ []

abbrev back : List ℕ
back = 0x12 ∷ 0x34 ∷ 0x56 ∷ []

check-calculate_example :
    let c = calculate front back in check (front ++ c % 256 ∷ c / 256 ∷ back) ≡ true
check-calculate_example = check-calculate front back 2 (omega arith) (omega arith) (omega arith)
