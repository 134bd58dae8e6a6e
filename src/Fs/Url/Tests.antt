-- ===== src/Fs/Url/Tests.antt =====
-- `file:/a`
use redox.Prelude.{[], ◌∷◌}
use redox.Fs.Url.{Url, from_str}
use redox.Fs.Url.Laws.{Reads, from_str-Reads}

abbrev file : Url
file = record { scheme = b'f' ∷ b'i' ∷ b'l' ∷ b'e' ∷ []; reference = b'/' ∷ b'a' ∷ b':' ∷ [] }

from_str-Reads_example : Reads (b'a' ∷ []) (from_str (b'a' ∷ []))
from_str-Reads_example = from_str-Reads (b'a' ∷ [])
