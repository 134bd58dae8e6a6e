-- ===== src/Schemes/Pipe/Laws.antt =====
-- What goes into a pipe comes out of it, kernel/schemes/pipe.rs.
use redox.Prelude.{
  ℕ, suc, ◌+◌, ◌<◌, ◌≡◌, inl, inr, ◌⊎◌, take_all, drop_all, refl, sym, true, false, ◌&&◌, List, [],
  ◌∷◌, ◌++◌, length, take, drop, min, arith, ltb, ◌==◌, append-nil, append_assoc,
}
use redox.Schemes.Pipe.{Pipe, reads, ok, err, fill, receive, read, send, send_all, write}

send_all_lem : (inner buf : List ℕ) → send_all inner buf ≡ inner ++ buf
unfolding send_all send
send_all_lem inner [] = sym (append-nil inner)
send_all_lem inner (b ∷ buf) =
    rw (send_all_lem (inner ++ b ∷ []) buf, append_assoc inner (b ∷ []) buf) refl

fill_lem :
    (buf inner : List ℕ)
    → let n = min (length buf) (length inner) in
      fill buf inner ≡ (take n inner ++ drop n buf, drop n inner, n)
unfolding fill
fill_lem [] inner = let e : min 0 (length inner) ≡ 0 = omega arith in rw e refl
fill_lem (x ∷ buf) [] = let e : min (suc (length buf)) 0 ≡ 0 = omega arith in rw e refl
fill_lem (x ∷ buf) (b ∷ inner) =
    let n = min (length buf) (length inner) in
    let e : min (suc (length buf)) (suc (length inner)) ≡ suc n = omega arith in
    let one : n + 1 ≡ suc n = omega arith in rw (e, fill_lem buf inner, one) refl

oldest :
    (queue : List ℕ) (readers writers : ℕ) (buf : List ℕ)
    → 0 < length buf
    → 0 < length queue
    → let n = min (length buf) (length queue) in
      read (record { queue = queue; readers = readers; writers = writers }) buf
      ≡ reads
          (record { queue = drop n queue; readers = readers; writers = writers })
          (take n queue ++ drop n buf)
          n
unfolding read receive
oldest queue readers writers [] h k = absurd (omega arith)
oldest [] readers writers (x ∷ buf) h k = absurd (omega arith)
oldest (b ∷ queue) readers writers (x ∷ buf) h k =
    let n = min (length buf) (length queue) in
    let e : min (suc (length buf)) (suc (length queue)) ≡ suc n = omega arith in
    let filled : (writers == 0 && suc (length queue) == 0) ≡ false = ground arith in
    let one : 1 + n ≡ suc n = omega arith in rw (e, filled, fill_lem buf queue, one) refl

-- A read into a buffer that is not empty, of a pipe that is not empty, takes the bytes that have
-- been in the pipe for longest, as many as fit and as there are, leaves the rest of the buffer and
-- of the pipe, and returns their number.
pub read-oldest :
    (p : Pipe) (buf : List ℕ)
    → 0 < length buf
    → 0 < length p.queue
    → let n = min (length buf) (length p.queue) in
      read p buf ≡ reads (record p { queue = drop n p.queue }) (take n p.queue ++ drop n buf) n
read-oldest p buf h k = oldest p.queue p.readers p.writers buf h k

-- While a read side is left, a write appends its bytes to the pipe and returns their number; when
-- none is, it returns EPIPE and changes nothing.
pub write_lem :
    (p : Pipe) (buf : List ℕ)
    → (0 < p.readers → write p buf ≡ (record p { queue = p.queue ++ buf }, ok (length buf)))
      × (p.readers ≡ 0 → write p buf ≡ (p, err 32))
unfolding write
write_lem p buf = (
  λ h. let t : ltb 0 p.readers ≡ true = ground arith in rw (t, send_all_lem p.queue buf) refl,
  λ e. let t : ltb 0 p.readers ≡ false = ground arith in rw t refl,
)

-- What one write puts into an empty pipe with a read side left, a read into a buffer of the same
-- length gets back, and leaves the pipe as it was; the bytes and the buffer are not empty.
pub write-read_back :
    (p : Pipe) (bytes buf : List ℕ)
    → p.queue ≡ []
    → 0 < p.readers
    → 0 < length bytes
    → length buf ≡ length bytes
    → read (write p bytes).0 buf ≡ reads p bytes (length bytes)
write-read_back p bytes buf e h k same =
    let written = (write_lem p bytes).0 h in
    let filled : Pipe = record p { queue = bytes } in
    let n : min (length buf) (length bytes) ≡ length bytes = omega arith in
    let got = read-oldest filled buf (omega arith) k in
    rw
      (
        written,
        e,
        got,
        n,
        take_all (length bytes) bytes (omega arith),
        drop_all (length bytes) bytes (omega arith),
        drop_all (length bytes) buf (omega arith),
        append-nil bytes,
      )
      refl

-- Into an empty buffer `read` moves nothing, and yet returns 1 while a write side is left or the
-- pipe is not empty.
pub read-nothing : (p : Pipe) → (0 < p.writers) ⊎ (0 < length p.queue) → read p [] ≡ reads p [] 1
unfolding read
read-nothing p (inl h) = ground arith
read-nothing p (inr h) = ground arith
