-- ===== src/Fs/VecResource/Tests.antt =====
-- The vector resource at a concrete content and cursor.
use redox.Prelude.{ℕ, ◌≡◌, refl, List, [], ◌∷◌, arith}
use redox.Fs.VecResource.{VecResource, from_start, read, write, seek}
use redox.Fs.VecResource.Seek.{write-read}

abbrev four_bytes : VecResource
four_bytes = record { path = 99 ∷ []; contents = 1 ∷ 2 ∷ 3 ∷ 4 ∷ []; seek = 3 }

abbrev two_bytes : List ℕ
two_bytes = 7 ∷ 8 ∷ []

write-read_example :
    let back = (seek (write four_bytes two_bytes).0 (from_start 3)).0 in
    ((read back two_bytes).1 ≡ two_bytes) × ((read back two_bytes).2 ≡ 2) × (back.seek ≡ 3)
write-read_example = write-read four_bytes two_bytes two_bytes (omega arith) refl
