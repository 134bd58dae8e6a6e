-- ===== src/Schemes/Pipe.antt =====
-- Pipes, kernel/schemes/pipe.rs, over the wait queue of kernel/sync/wait_queue.rs. The queue that the
-- ends share stands with how many ends refer to it: the read sides hold it, the write sides only
-- weakly. A call that blocks, and so leaves everything as it was, is `waits`.
pub mod Laws
mod Tests
use redox.Prelude.{
  ℕ, zero, suc, ◌+◌, Bool, true, false, ◌&&◌, List, [], ◌∷◌, ◌++◌, Option, none, some, ltb, ◌==◌,
  if◌then◌else◌, length, min,
}

pub record Pipe : Type 0 where
  pub queue : List ℕ
  pub readers : ℕ
  pub writers : ℕ

-- `WaitQueue::receive` on a queue, with the queue behind it: none where the caller blocks.
pub receive : List ℕ → Option (ℕ × List ℕ)
receive [] = none
receive (value ∷ inner) = some (value, inner)

-- `WaitQueue::receive_all`
pub receive_all : List ℕ → Option (List ℕ × List ℕ)
receive_all [] = none
receive_all (value ∷ inner) = some (value ∷ inner, [])

-- `WaitQueue::send`
pub send : List ℕ → ℕ → List ℕ
send inner value = inner ++ value ∷ []

-- `PipeRead::new` and `PipeWrite::new`, and the clones of `dup`.
pub new_read : Pipe
new_read = record { queue = []; readers = 1; writers = 0 }

pub new_write : Pipe → Pipe
new_write p = record p { writers = p.writers + 1 }

pub dup_read : Pipe → Pipe
dup_read p = record p { readers = p.readers + 1 }

pub data Reading : Type 0 where
  reads : Pipe → List ℕ → ℕ → Reading
  waits : Reading

-- The loop of `read`, from the second byte of the buffer on.
pub fill : List ℕ → List ℕ → List ℕ × List ℕ × ℕ
fill [] inner = ([], inner, 0)
fill (x ∷ buf) [] = (x ∷ buf, [], 0)
fill (x ∷ buf) (b ∷ inner) = let (rest, left, i) = fill buf inner in (b ∷ rest, left, i + 1)

-- `read` on a buffer; an empty one counts as one byte read.
pub read : Pipe → List ℕ → Reading
unfolding receive fill
read p [] = if p.writers == 0 && length p.queue == 0 then reads p [] 0 else reads p [] 1
read p (x ∷ buf) =
    if p.writers == 0 && length p.queue == 0 then reads p (x ∷ buf) 0 else elim (receive p.queue) [
      | none ↦ waits
      | some (b, inner) ↦
          let (rest, left, i) = fill buf inner in
          reads (record p { queue = left }) (b ∷ rest) (1 + i)
    ]

pub send_all : List ℕ → List ℕ → List ℕ
unfolding send
send_all inner [] = inner
send_all inner (b ∷ buf) = send_all (send inner b) buf

pub data Written : Type 0 where
  ok : ℕ → Written
  err : ℕ → Written

-- `write`: the queue is gone where no read side is left.
pub write : Pipe → List ℕ → Pipe × Written
unfolding send_all
write p buf =
    if ltb 0 p.readers
    then (record p { queue = send_all p.queue buf }, ok (length buf))
    else (p, err 32)

-- `buf.iter_mut().zip(path.iter())`, with `cmp::min(buf.len(), path.len())`
pub zip_path : List ℕ → List ℕ → List ℕ
zip_path [] path = []
zip_path (x ∷ buf) [] = x ∷ buf
zip_path (x ∷ buf) (p ∷ path) = p ∷ zip_path buf path

pub read_path : List ℕ → List ℕ × ℕ
unfolding zip_path
read_path buf =
    let path = b'p' ∷ b'i' ∷ b'p' ∷ b'e' ∷ b':' ∷ b'r' ∷ [] in
    (zip_path buf path, min (length buf) (length path))

pub write_path : List ℕ → List ℕ × ℕ
unfolding zip_path
write_path buf =
    let path = b'p' ∷ b'i' ∷ b'p' ∷ b'e' ∷ b':' ∷ b'w' ∷ [] in
    (zip_path buf path, min (length buf) (length path))
