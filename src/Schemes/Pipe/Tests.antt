-- ===== src/Schemes/Pipe/Tests.antt =====
-- A pipe with both ends open.
use redox.Prelude.{◌≡◌, [], ◌∷◌, arith, refl}
use redox.Schemes.Pipe.{Pipe, reads, read, write}
use redox.Schemes.Pipe.Laws.{write-read_back}

abbrev open_pipe : Pipe
open_pipe = record { queue = []; readers = 1; writers = 1 }

abbrev two_queued : Pipe
two_queued = record { queue = 3 ∷ 4 ∷ []; readers = 1; writers = 1 }

write-read_back_example :
    read (write open_pipe (1 ∷ 2 ∷ [])).0 (0 ∷ 0 ∷ []) ≡ reads open_pipe (1 ∷ 2 ∷ []) 2
write-read_back_example =
    write-read_back open_pipe (1 ∷ 2 ∷ []) (0 ∷ 0 ∷ []) refl (omega arith) (omega arith) refl
