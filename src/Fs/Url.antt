-- ===== src/Fs/Url.antt =====
-- kernel/fs/url.rs: a URL is a scheme and a reference, which a colon separates. A string is the
-- list of its bytes.
pub mod Laws
mod Tests
use redox.Prelude.{ℕ, ◌+◌, List, [], ◌∷◌, ◌++◌, Option, none, some, ◌>>=◌, ◌==◌, length}
use redox.Common.Slice.{get_slice}
use redox.Common.ParseIp.{find}

abbrev pub Str : Type 0
Str = List ℕ

pub record Url : Type 0 where
  pub scheme : Str
  pub reference : Str

pub new : Url
new = record { scheme = []; reference = [] }

-- `Result<Url>`; an error is its number.
pub data Parsed : Type 0 where
  ok : Url → Parsed
  err : ℕ → Parsed

-- `none` is a panic.
pub from_str : Str → Option Parsed
from_str string = elim (find (λ c. c == b':') string) [
  | none ↦ some (err 22)
  | some split ↦ do
    scheme ← get_slice string none (some (some split))
    reference ← get_slice string (some (some (split + 1))) none
    some (ok (record { scheme = scheme; reference = reference }))
]

pub to_string : Url → Str
to_string u = u.scheme ++ b':' ∷ u.reference

pub len : Url → ℕ
len u = length u.scheme + length u.reference + 1

pub record OwnedUrl : Type 0 where
  pub scheme : Str
  pub reference : Str

pub to_owned : Url → OwnedUrl
to_owned u = record { scheme = u.scheme; reference = u.reference }

pub as_url : OwnedUrl → Url
as_url u = record { scheme = u.scheme; reference = u.reference }

pub data CowUrl : Type 0 where
  ref : Url → CowUrl
  owned : OwnedUrl → CowUrl

pub to_cow : Url → CowUrl
to_cow u = ref u

pub into_cow : OwnedUrl → CowUrl
into_cow u = owned u

pub cow_as_url : CowUrl → Url
unfolding as_url
cow_as_url (ref u) = u
cow_as_url (owned u) = as_url u
