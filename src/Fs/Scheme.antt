-- ===== src/Fs/Scheme.antt =====
-- Schemes that a program serves, kernel/fs/scheme.rs, in 64 bits: the calls that wait for an answer,
-- and the resource of the program that answers them. `Weak::upgrade` gives nothing when that
-- program has dropped its resource. A call that waits for ever is `none`.
pub mod Client
pub mod Answered
mod Tests
use redox.Prelude.{
  ℕ, zero, suc, ◌+◌, ◌-◌, ◌%◌, ◌^◌, List, [], ◌∷◌, ◌++◌, Option, none, some, leb, ◌==◌,
  if◌then◌else◌, length, take, drop,
}
use redox.Context.Memory.{Space}
use redox.Context.Process.{insert, receive}
use redox.System.Error.{Result, ok, err, demux}
use redox.System.Packet.{Packet, packet_bytes, packet_at}

-- `context` is the memory of the program that serves the scheme.
pub record SchemeInner : Type 0 where
  pub name : List ℕ
  pub context : Space
  pub next_id : ℕ
  pub todo : List Packet
  pub done : List (ℕ × (ℕ × ℕ × ℕ × ℕ))

pub new_inner : List ℕ → Space → SchemeInner
new_inner name context = record {
  name = name;
  context = context;
  next_id = 1;
  todo = [];
  done = [];
}

pub following_id : ℕ → ℕ
following_id id = let next = (id + 1) % 2 ^ 64 in if next == 0 then 1 else next

-- `SchemeInner::call`, up to its wait: the packet is sent.
pub send_call : (a b c d : ℕ) → SchemeInner → SchemeInner
unfolding following_id
send_call a b c d s = record s {
  next_id = following_id s.next_id;
  todo = s.todo ++ record { id = s.next_id; a = a; b = b; c = c; d = d } ∷ [];
}

-- `Error::demux(scheme.done.receive(&id).0)`, in a round in which the answer is there.
pub answered : ℕ → SchemeInner → Option (Result × SchemeInner)
answered id s = elim (receive id s.done) [
  | none ↦ none
  | some (answer, rest) ↦ some (demux answer.0, record s { done = rest })
]

-- The wait for the answer, with what other contexts do during it as a parameter.
module _ (serves : SchemeInner → SchemeInner) where
  pub call_inner : (a b c d : ℕ) → SchemeInner → Option (Result × SchemeInner)
  unfolding send_call answered
  call_inner a b c d s = answered s.next_id (serves (send_call a b c d s))

  pub call : (a b c d : ℕ) → Option SchemeInner → Option (Result × Option SchemeInner)
  unfolding call_inner
  call a b c d inner = elim inner [
    | none ↦ some (err 9, none)
    | some s ↦ elim (call_inner a b c d s) [
      | none ↦ none
      | some (result, s') ↦ some (result, some s')
    ]
  ]

-- `ptr::write(buf.as_mut_ptr().offset(i) as *mut Packet, packet)`, within the buffer
pub put_packet : List ℕ → ℕ → Packet → List ℕ
put_packet buf i p = take i buf ++ (packet_bytes p ++ drop (i + 40) buf)

-- The loop of `SchemeServerResource::read`, behind the first packet.
pub read_more : List ℕ → ℕ → List Packet → List ℕ × ℕ × List Packet
unfolding put_packet
read_more buf i [] = (buf, i, [])
read_more buf i (p ∷ todo) =
    let rest = read_more (put_packet buf i p) (i + 40) todo in
    if leb (i + 40) (length buf) then rest else (buf, i, p ∷ todo)

pub server_read : SchemeInner → List ℕ → Option (Result × List ℕ × SchemeInner)
unfolding read_more
server_read s buf =
    if leb 40 (length buf)
    then elim s.todo [
      | [] ↦ none
      | p ∷ todo ↦
          let (buf', i, rest) = read_more (put_packet buf 0 p) 40 todo in
          some (ok i, buf', record s { todo = rest })
    ]
    else some (err 22, buf, s)

-- The loop of `SchemeServerResource::write`, on fuel: a round takes 40 bytes.
pub write_from : ℕ → ℕ → List ℕ → SchemeInner → ℕ × SchemeInner
write_from zero i buf s = (i, s)
write_from (suc fuel) i buf s =
    let p = packet_at (drop i buf) in
    let rest =
      write_from fuel (i + 40) buf (record s { done = insert p.id (p.a, p.b, p.c, p.d) s.done }) in
    if leb i (length buf - 40) then rest else (i, s)

pub server_write : SchemeInner → List ℕ → Result × SchemeInner
unfolding write_from
server_write s buf =
    let (i, s') = write_from (length buf) 0 buf s in
    if leb 40 (length buf) then (ok i, s') else (err 22, s)

-- The two loops of `SchemeServerResource::path`: a colon and the name, as far as they fit.
pub fill_path : List ℕ → List ℕ → List ℕ × ℕ
fill_path [] path = ([], 0)
fill_path (x ∷ buf) [] = (x ∷ buf, 0)
fill_path (x ∷ buf) (b ∷ path) = let (rest, i) = fill_path buf path in (b ∷ rest, i + 1)

pub server_path : SchemeInner → List ℕ → List ℕ × Result
unfolding fill_path
server_path s buf = let (buf', i) = fill_path buf (b':' ∷ s.name) in (buf', ok i)
