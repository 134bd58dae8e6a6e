-- ===== src/Fs/VecResource/Seek.antt =====
-- The cursor and the size in kernel/fs/vec_resource.rs: writing, then reading back; seek, truncate.
use redox.Prelude.{
  ℕ, zero, suc, ◌+◌, ◌-◌, ◌^◌, ◌≤◌, ◌<◌, ◌≡◌, refl, sym, ap, min, List, [], ◌∷◌, ◌++◌, length, take,
  drop, replicate, arith, length-append, length-take, length-replicate, append-nil, append_assoc,
  drop_all, take-append_left,
}
use redox.Prelude.Words.{isize_min, isize_max, add64}
use redox.Fs.VecResource.{
  VecResource, from_start, from_current, from_end, read, write, seek, seek_to, pad, truncate,
}
use redox.Fs.VecResource.Laws.{InRange, read_lem, write_lem}

pad_lem : (n : ℕ) (xs : List ℕ) → pad n xs ≡ xs ++ replicate n 0
unfolding pad
pad_lem zero xs = sym (append-nil xs)
pad_lem (suc n) xs = rw (pad_lem n (xs ++ 0 ∷ []), append_assoc xs (0 ∷ [])) refl

-- After `truncate` the contents are the first bytes of the old ones, filled up with zeros, exactly
-- as many as asked for, and the cursor is within them.
pub truncate_lem :
    (r : VecResource) (len : ℕ)
    → let r' = truncate r len in
      (r'.contents ≡ take len (r.contents ++ replicate (len - length r.contents) 0))
      × (length r'.contents ≡ len)
      × (InRange r')
unfolding truncate
truncate_lem r len =
    let missing = len - length r.contents in
    let padded = pad_lem missing r.contents in
    let size : length (take len (pad missing r.contents)) ≡ len = omega (
      arith,
      length-take len (pad missing r.contents),
      length-append r.contents (replicate missing 0),
      length-replicate {A = ℕ} missing 0,
      ap length padded,
    ) in
    (rw padded, size, omega arith)

drop-take_append : (s : ℕ) (xs ys : List ℕ) → s ≤ length xs → drop s (take s xs ++ ys) ≡ ys
drop-take_append zero xs ys h = refl
drop-take_append (suc s) [] ys h = absurd (omega arith)
drop-take_append (suc s) (x ∷ xs) ys h = drop-take_append s xs ys (omega arith)

length-overwritten :
    (s : ℕ) (xs bytes : List ℕ)
    → s ≤ length xs
    → s + length bytes ≤ length (take s xs ++ bytes ++ drop (s + length bytes) xs)
length-overwritten s xs bytes h = omega (
  arith,
  length-append (take s xs ++ bytes) (drop (s + length bytes) xs),
  length-append (take s xs) bytes,
  length-take s xs,
)

-- With the cursor within the contents, a write, a seek to where it began and a read into a buffer of the same length give
-- the bytes written back, and the read returns their number.
pub write-read :
    (r : VecResource) (bytes buf : List ℕ)
    → InRange r
    → length buf ≡ length bytes
    → let written = (write r bytes).0 in
      let back = (seek written (from_start r.seek)).0 in
      ((read back buf).1 ≡ bytes) × ((read back buf).2 ≡ length bytes) × (back.seek ≡ r.seek)
unfolding seek seek_to
write-read r bytes buf h e =
    let s = r.seek in
    let xs = r.contents in
    let tail = drop (s + length bytes) xs in
    let xs' = take s xs ++ bytes ++ tail in
    let written = write_lem r bytes h in
    let longer = length-overwritten s xs bytes h in
    let start : min (length xs') s ≡ s = omega arith in
    let back : VecResource = record r { contents = xs'; seek = s } in
    let again : read back buf ≡ (record back { seek = s + length bytes }, bytes, length bytes) =
      let n : min (length buf) (length xs' - s) ≡ length bytes = omega arith in
      let bytes_read = drop-take_append s xs (bytes ++ tail) h in
      rw
        (
          read_lem back buf (omega arith),
          n,
          append_assoc (take s xs) bytes tail,
          bytes_read,
          take-append_left bytes tail,
          drop_all (length bytes) buf (omega arith),
          append-nil bytes,
        )
        refl in
    rw (written, start, again) (refl, refl, refl)

-- A cursor within the contents stays within them under read, write and truncate, and under a seek
-- to an offset from the start.
pub operations-InRange :
    (r : VecResource) (buf : List ℕ) (n : ℕ)
    → InRange r
    → InRange (read r buf).0
      × InRange (write r buf).0
      × InRange (truncate r n)
      × InRange (seek r (from_start n)).0
unfolding seek seek_to
operations-InRange r buf n h =
    let a : InRange (read r buf).0 = rw (read_lem r buf h) (omega arith) in
    let b : InRange (write r buf).0 =
      rw (write_lem r buf h) (length-overwritten r.seek r.contents buf h) in
    (a, b, (truncate_lem r n).2, omega arith)

relative_le : (s y : ℕ) → s < 2 ^ 63 → y < 2 ^ 64 → isize_max 0 (isize_min s y) ≤ s
relative_le s y hs hy = ground arith

-- From a cursor below 2 ^ 63 a seek relative to the cursor or to the end never moves the cursor
-- forward, whatever the 64-bit offset.
pub seek-never_forward :
    (r : VecResource) (offset : ℕ)
    → r.seek < 2 ^ 63
    → offset < 2 ^ 64
    → ((seek r (from_current offset)).0.seek ≤ r.seek)
      × ((seek r (from_end offset)).0.seek ≤ r.seek)
unfolding seek seek_to
seek-never_forward r offset h ho = (
  relative_le r.seek (add64 r.seek offset) h (omega arith),
  relative_le r.seek (add64 (length r.contents) offset) h (omega arith),
)
