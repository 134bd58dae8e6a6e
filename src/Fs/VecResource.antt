-- ===== src/Fs/VecResource.antt =====
-- kernel/fs/vec_resource.rs: a resource over a vector of bytes. A buffer that a call fills is
-- passed in and returned; sizes and offsets are 64-bit words.
pub mod Laws
pub mod Seek
mod Tests
use redox.Prelude.{
  ℕ, zero, suc, ◌+◌, ◌-◌, min, Bool, true, false, List, [], ◌∷◌, ◌++◌, Option, none, some, ltb,
  length, get_elem?, set, take, replicate, if◌then◌else◌,
}
use redox.Prelude.Words.{isize_min, isize_max, add64}

pub record VecResource : Type 0 where
  pub path : List ℕ
  pub contents : List ℕ
  pub seek : ℕ

pub data ResourceSeek : Type 0 where
  from_start : ℕ → ResourceSeek
  from_current : ℕ → ResourceSeek
  from_end : ℕ → ResourceSeek

pub new : List ℕ → List ℕ → VecResource
new path contents = record { path = path; contents = contents; seek = 0 }

pub dup : VecResource → VecResource
dup r = record { path = r.path; contents = r.contents; seek = r.seek }

-- `while i < buf.len() && i < path.len() { buf[i] = path[i]; i += 1; }`
pub copy_path : List ℕ → List ℕ → List ℕ × ℕ
copy_path [] path = ([], 0)
copy_path (x ∷ buf) [] = (x ∷ buf, 0)
copy_path (x ∷ buf) (p ∷ path) = let (rest, i) = copy_path buf path in (p ∷ rest, i + 1)

pub path_of : VecResource → List ℕ → List ℕ × ℕ
path_of r buf = copy_path buf r.path

-- The loop of `read`: the buffer from `i` on, and `seek`; the result is that part of the buffer,
-- the new `seek` and how often `i` was raised.
pub read_loop : List ℕ → List ℕ → ℕ → List ℕ × ℕ × ℕ
read_loop contents [] seek = ([], seek, 0)
read_loop contents (x ∷ buf) seek =
    let byte : ℕ = elim (get_elem? contents seek) [ some b ↦ b | none ↦ x ] in
    let rest = read_loop contents buf (seek + 1) in
    if ltb seek (length contents) then (byte ∷ rest.0, rest.1, rest.2 + 1) else (x ∷ buf, seek, 0)

pub read : VecResource → List ℕ → VecResource × List ℕ × ℕ
read r buf =
    let (buf', seek, i) = read_loop r.contents buf r.seek in (record r { seek = seek }, buf', i)

-- The second loop of `write`, which appends what is left of the buffer.
pub append_loop : List ℕ → List ℕ → ℕ → ℕ → List ℕ × ℕ × ℕ
append_loop [] contents seek i = (contents, seek, i)
append_loop (b ∷ buf) contents seek i = append_loop buf (contents ++ b ∷ []) (seek + 1) (i + 1)

-- The first loop, which overwrites, and the second behind it.
pub write_loop : List ℕ → List ℕ → ℕ → ℕ → List ℕ × ℕ × ℕ
unfolding append_loop
write_loop [] contents seek i = append_loop [] contents seek i
write_loop (b ∷ buf) contents seek i =
    let overwritten = write_loop buf (set contents seek b) (seek + 1) (i + 1) in
    let appended = append_loop (b ∷ buf) contents seek i in
    if ltb seek (length contents) then overwritten else appended

pub write : VecResource → List ℕ → VecResource × ℕ
write r buf =
    let (contents, seek, i) = write_loop buf r.contents r.seek 0 in
    (record r { contents = contents; seek = seek }, i)

pub seek_to : VecResource → ResourceSeek → ℕ
seek_to r (from_start offset) = min (length r.contents) offset
seek_to r (from_current offset) = isize_max 0 (isize_min r.seek (add64 r.seek offset))
seek_to r (from_end offset) = isize_max 0 (isize_min r.seek (add64 (length r.contents) offset))

pub seek : VecResource → ResourceSeek → VecResource × ℕ
unfolding seek_to
seek r pos = (record r { seek = seek_to r pos }, seek_to r pos)

-- `while len > self.data.len() { self.data.push(0); }`
pub pad : ℕ → List ℕ → List ℕ
pad zero contents = contents
pad (suc missing) contents = pad missing (contents ++ 0 ∷ [])

pub truncate : VecResource → ℕ → VecResource
unfolding pad
truncate r len =
    let contents = take len (pad (len - length r.contents) r.contents) in
    record r { contents = contents; seek = min r.seek (length contents) }
