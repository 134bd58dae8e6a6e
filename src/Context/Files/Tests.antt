-- ===== src/Context/Files/Tests.antt =====
-- A file table with a gap; the resources are numbers.
use redox.Prelude.{ℕ, ◌≡◌, refl, List, [], ◌∷◌}
use redox.Context.Files.{ContextFile, has_fd, next_fd}
use redox.Context.Files.Fresh.{Least, next_fd-Least}
use redox.Context.Files.Table.{Unique}
use redox.Context.Files.Effects.{Step, closed, perform}
use redox.Context.Files.Refine.{view, perform-Step}

abbrev gap : List (ContextFile ℕ)
gap = record { fd = 0; resource = 70 } ∷ record { fd = 2; resource = 72 } ∷ []

gap-Unique : Unique gap
unfolding has_fd
gap-Unique = (refl, (refl, tt))

next_fd-gap : next_fd gap ≡ 1
unfolding next_fd
next_fd-gap = refl

next_fd-Least_example : Least gap (next_fd gap)
next_fd-Least_example = next_fd-Least gap

perform-Step_example :
    let (answer, files') = perform (closed 2) gap in
    Step (closed 2) (view gap) answer (view files') × Unique files'
perform-Step_example = perform-Step (closed 2) gap gap-Unique
