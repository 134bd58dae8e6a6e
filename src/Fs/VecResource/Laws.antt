-- ===== src/Fs/VecResource/Laws.antt =====
-- Reading and writing of kernel/fs/vec_resource.rs.
use redox.Prelude.{
  ℕ, zero, suc, ◌+◌, ◌-◌, ◌≤◌, ◌<◌, ◌≡◌, refl, sym, ap, min, Bool-cases, inl, inr, List, [], ◌∷◌,
  ◌++◌, some, ltb, ltb→lt, ltb-false, length, get_elem?, set, take, drop, arith, length-set,
  append-nil, append_assoc, take-append-drop, take_all, drop_all,
}
use redox.Fs.VecResource.{VecResource, read_loop, read, append_loop, write_loop, write}

-- The cursor lies within the contents.
abbrev pub InRange : VecResource → Type 0
InRange r = r.seek ≤ length r.contents

get-drop :
    (xs : List ℕ) (i : ℕ)
    → i < length xs
    → (b : ℕ) × (get_elem? xs i ≡ some b) × (drop i xs ≡ b ∷ drop (i + 1) xs)
get-drop [] i h = absurd (omega arith)
get-drop (x ∷ xs) zero h = (x, refl, refl)
get-drop (x ∷ xs) (suc i) h =
    let (b, e, d) = get-drop xs i (omega arith) in
    let next : suc i + 1 ≡ suc (i + 1) = omega arith in (b, e, rw next d)

-- `read` fills the buffer with the bytes from the cursor on, as many as fit and as there are, leaves
-- the rest of the buffer as it was, moves the cursor behind them and returns their number.
read_loop_lem :
    (xs buf : List ℕ) (seek : ℕ)
    → seek ≤ length xs
    → let n = min (length buf) (length xs - seek) in
      read_loop xs buf seek ≡ (take n (drop seek xs) ++ drop n buf, seek + n, n)
unfolding read_loop
read_loop_lem xs [] seek h =
    let e : min 0 (length xs - seek) ≡ 0 = omega arith in
    let z : seek + 0 ≡ seek = omega arith in rw (e, z) refl
read_loop_lem xs (x ∷ buf) seek h = elim (Bool-cases (ltb seek (length xs))) [
  | inl t ↦
      let lt : seek < length xs = ltb→lt seek (length xs) t in
      let (b, e, d) = get-drop xs seek lt in
      let n : min (length (x ∷ buf)) (length xs - seek)
          ≡ suc (min (length buf) (length xs - (seek + 1))) =
        omega arith in
      let ih = read_loop_lem xs buf (seek + 1) (omega arith) in
      let rest = min (length buf) (length xs - (seek + 1)) in
      let moved : seek + 1 + rest ≡ seek + suc rest = omega arith in
      let counted : rest + 1 ≡ suc rest = omega arith in rw (n, t, e, d, ih, moved, counted) refl
  | inr f ↦
      let ge : length xs ≤ seek = ltb-false seek (length xs) f in
      let n : min (length (x ∷ buf)) (length xs - seek) ≡ 0 = omega arith in
      let z : seek + 0 ≡ seek = omega arith in rw (n, f, z) refl
]

-- With the cursor within the contents, `read` fills the buffer with the bytes from the cursor on, as many as fit and as
-- there are, leaves the rest of the buffer as it was, moves the cursor behind them and returns
-- their number.
pub read_lem :
    (r : VecResource) (buf : List ℕ)
    → InRange r
    → let n = min (length buf) (length r.contents - r.seek) in
      read r buf
      ≡ (record r { seek = r.seek + n }, take n (drop r.seek r.contents) ++ drop n buf, n)
unfolding read
read_lem r buf h = rw (read_loop_lem r.contents buf r.seek h)

append_loop_lem :
    (buf xs : List ℕ) (s i : ℕ)
    → append_loop buf xs s i ≡ (xs ++ buf, s + length buf, i + length buf)
unfolding append_loop
append_loop_lem [] xs s i =
    let s0 : s + 0 ≡ s = omega arith in
    let i0 : i + 0 ≡ i = omega arith in rw (append-nil xs, s0, i0)
append_loop_lem (b ∷ buf) xs s i =
    let s1 : s + 1 + length buf ≡ s + suc (length buf) = omega arith in
    let i1 : i + 1 + length buf ≡ i + suc (length buf) = omega arith in
    rw (append_loop_lem buf (xs ++ b ∷ []) (s + 1) (i + 1), append_assoc xs (b ∷ []) buf, s1, i1)
      refl

take-set : (xs : List ℕ) (i v : ℕ) → i < length xs → take (i + 1) (set xs i v) ≡ take i xs ++ v ∷ []
take-set [] i v h = absurd (omega arith)
take-set (x ∷ xs) zero v h = refl
take-set (x ∷ xs) (suc i) v h =
    let next : suc i + 1 ≡ suc (i + 1) = omega arith in rw (next, take-set xs i v (omega arith))

drop-set : (xs : List ℕ) (i j v : ℕ) → i < j → drop j (set xs i v) ≡ drop j xs
drop-set [] i j v h = refl
drop-set (x ∷ xs) i zero v h = absurd (omega arith)
drop-set (x ∷ xs) zero (suc j) v h = refl
drop-set (x ∷ xs) (suc i) (suc j) v h = drop-set xs i j v (omega arith)

write_loop_lem :
    (buf xs : List ℕ) (s i : ℕ)
    → s ≤ length xs
    → write_loop buf xs s i
      ≡ (take s xs ++ buf ++ drop (s + length buf) xs, s + length buf, i + length buf)
unfolding write_loop append_loop
write_loop_lem [] xs s i h =
    let s0 : s + 0 ≡ s = omega arith in
    let i0 : i + 0 ≡ i = omega arith in
    let whole : (xs, s, i) ≡ (take s xs ++ drop s xs, s, i) =
      ap (λ ys. (ys, s, i)) (sym (take-append-drop s xs)) in
    rw (s0, i0, append-nil (take s xs)) whole
write_loop_lem (b ∷ buf) xs s i h = elim (Bool-cases (ltb s (length xs))) [
  | inl t ↦
      let lt : s < length xs = ltb→lt s (length xs) t in
      let within : s + 1 ≤ length (set xs s b) = omega (arith, length-set xs s b) in
      let s1 : s + 1 + length buf ≡ s + suc (length buf) = omega arith in
      let i1 : i + 1 + length buf ≡ i + suc (length buf) = omega arith in
      rw
        (
          t,
          write_loop_lem buf (set xs s b) (s + 1) (i + 1) within,
          s1,
          i1,
          take-set xs s b lt,
          drop-set xs s (s + suc (length buf)) b (omega arith),
          append_assoc (take s xs) (b ∷ []),
        )
        refl
  | inr f ↦
      let ge : length xs ≤ s = ltb-false s (length xs) f in
      rw
        (
          f,
          append_loop_lem (b ∷ buf) xs s i,
          take_all s xs ge,
          drop_all (s + suc (length buf)) xs (omega arith),
          append-nil (xs ++ b ∷ buf),
        )
        refl
]

-- With the cursor within the contents, `write` replaces the bytes from the cursor on by those of the buffer, appends what
-- reaches beyond the end, moves the cursor behind them and returns the buffer's length.
pub write_lem :
    (r : VecResource) (buf : List ℕ)
    → InRange r
    → write r buf ≡ (
      record r {
        contents = take r.seek r.contents ++ buf ++ drop (r.seek + length buf) r.contents;
        seek = r.seek + length buf;
      },
      length buf,
    )
unfolding write
write_lem r buf h =
    let n : 0 + length buf ≡ length buf = omega arith in
    rw (write_loop_lem buf r.contents r.seek 0 h, n) refl
