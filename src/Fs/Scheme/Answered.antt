-- ===== src/Fs/Scheme/Answered.antt =====
-- A call and its answer by a program that serves the scheme: kernel/fs/scheme.rs with
-- crates/system/scheme.rs.
use redox.Prelude.{
  ℕ, suc, ◌-◌, ◌≡◌, ◌≤◌, refl, ap, sym, ◌∙◌, true, false, List, [], ◌∷◌, ◌++◌, Option, none, some,
  leb, ltb, ◌==◌, length, drop, ◌+◌, ◌^◌, ◌<◌, if◌then◌else◌, arith, append-nil, Bool-cases, inl,
  inr, ==_refl,
}
use redox.Context.Process.{lookup, remove, insert, receive}
use redox.Fs.Scheme.{
  SchemeInner, send_call, answered, call_inner, put_packet, read_more, server_read, write_from,
  server_write, following_id,
}
use redox.System.Error.{Result, ok, err, mux, Carried, demux-mux, mux-lt}
use redox.System.Packet.{Packet, Scheme, packet_bytes, packet_at, dispatch, handle}
use redox.System.Packet.Bytes.{Words, length-packet_bytes, packet_at-packet_bytes}

remove-remove {ℓ} :
    {A : Type ℓ} (key : ℕ) (entries : List (ℕ × A))
    → remove key (remove key entries) ≡ remove key entries
unfolding remove
remove-remove key [] = refl
remove-remove {A = A} key (entry ∷ entries) = elim (Bool-cases (entry.0 == key)) [
  | inl t ↦ rw t (remove-remove key entries)
  | inr f ↦ rw (f, f) (ap {A = List (ℕ × A)} (λ t. entry ∷ t) (remove-remove key entries))
]

receive-insert {ℓ} :
    {A : Type ℓ} (key : ℕ) (value : A) (entries : List (ℕ × A))
    → receive key (insert key value entries) ≡ some (value, remove key entries)
unfolding receive insert lookup remove
receive-insert key value entries =
    rw (receive, ==_refl key, ==_refl key, remove-remove key entries) refl

-- A round of a program that serves a scheme: it reads a packet into a buffer, handles it, and
-- writes the answer.
module _ {ℓ} {H : Type ℓ} (scheme : Scheme H) (string_at : H → ℕ → List ℕ) (buf : List ℕ) where
  unfoldable pub serve : H → SchemeInner → Option (H × SchemeInner)
  serve h s = elim (server_read s buf) [
    | none ↦ none
    | some (err e, buf', s') ↦ some (h, s')
    | some (ok i, buf', s') ↦
        let (answer, h') = handle scheme string_at h (packet_at buf') in
        some (h', (server_write s' (packet_bytes answer)).1)
  ]

  -- What the program does while a call waits: one round.
  unfoldable pub serves : H → SchemeInner → SchemeInner
  unfolding serve
  serves h s = elim (serve h s) [ none ↦ s | some (h', s') ↦ s' ]

-- One round of the loop at the front of the bytes of a packet, and none behind them.
write_from-packet :
    (s : SchemeInner) (p : Packet) (buf : List ℕ) (fuel : ℕ)
    → length buf ≡ 40
    → packet_at buf ≡ p
    → write_from (suc (suc fuel)) 0 buf s
      ≡ (40, record s { done = insert p.id (p.a, p.b, p.c, p.d) s.done })
unfolding write_from
write_from-packet s p buf fuel n e =
    let t : leb 0 (length buf - 40) ≡ true = ground arith in
    let f : leb 40 (length buf - 40) ≡ false = ground arith in rw (write_from, t, e, f) refl

server_write-packet :
    (s : SchemeInner) (p : Packet)
    → Words p
    → server_write s (packet_bytes p)
      ≡ (ok 40, record s { done = insert p.id (p.a, p.b, p.c, p.d) s.done })
unfolding server_write
server_write-packet s p w =
    let e : packet_at (packet_bytes p) ≡ p =
      ap packet_at (sym (append-nil (packet_bytes p))) ∙ packet_at-packet_bytes p [] w in
    let n = length-packet_bytes p in
    let t : leb 40 (length (packet_bytes p)) ≡ true = ground arith in
    rw (server_write, t, n, write_from-packet s p (packet_bytes p) 38 n e) refl

-- The first packet of the queue is read to the front of a buffer with room for it.
server_read-packet :
    (s : SchemeInner) (p : Packet) (buf : List ℕ)
    → 40 ≤ length buf
    → s.todo ≡ p ∷ []
    → server_read s buf ≡ some (ok 40, packet_bytes p ++ drop 40 buf, record s { todo = [] })
unfolding server_read read_more put_packet
server_read-packet s p buf n e =
    let t : leb 40 (length buf) ≡ true = ground arith in simp (server_read, t, e)

-- The packet of a call.
abbrev pub packet_of : (a b c d : ℕ) → SchemeInner → Packet
packet_of a b c d s = record { id = s.next_id; a = a; b = b; c = c; d = d }

module _ {ℓ} {H : Type ℓ} (scheme : Scheme H) (string_at : H → ℕ → List ℕ) (buf : List ℕ) (h h' : H)
    (r : Result) (p : Packet) (n : 40 ≤ length buf) (w : Words p)
    (does : dispatch scheme string_at h p ≡ (r, h')) (carried : Carried r) where
  answer : Packet
  answer = record p { a = mux r }

  answer-Words : Words answer
  unfolding answer
  answer-Words = record { id = w.id; a = mux-lt r carried; b = w.b; c = w.c; d = w.d }

  handle_lem : handle scheme string_at h (packet_at (packet_bytes p ++ drop 40 buf)) ≡ (answer, h')
  unfolding handle answer
  handle_lem = rw (packet_at-packet_bytes p (drop 40 buf) w, does) refl

  serve_lem :
      (s : SchemeInner)
      → s.todo ≡ p ∷ []
      → serve scheme string_at buf h s
        ≡ some (
          h',
          record s {
            todo = [];
            done = insert answer.id (answer.a, answer.b, answer.c, answer.d) s.done;
          },
        )
  unfolding serve
  serve_lem s e =
      let s' : SchemeInner = record s { todo = [] } in
      let written = server_write-packet s' answer answer-Words in
      rw (serve, server_read-packet s p buf n e, handle_lem, written) refl

  -- What the program leaves of a scheme in which the packet was sent.
  left : SchemeInner → SchemeInner
  left s = record s { todo = []; done = insert p.id (mux r, p.b, p.c, p.d) s.done }

  serves_lem : (s : SchemeInner) → s.todo ≡ p ∷ [] → serves scheme string_at buf h s ≡ left s
  unfolding serves left answer
  serves_lem s e = rw (serves, serve_lem s e) refl

answered-insert :
    (s : SchemeInner) (id b c d : ℕ) (r : Result) (done : List (ℕ × (ℕ × ℕ × ℕ × ℕ)))
    → Carried r
    → answered id (record s { done = insert id (mux r, b, c, d) done })
      ≡ some (r, record s { done = remove id done })
unfolding answered
answered-insert s id b c d r done carried =
    rw (answered, receive-insert id (mux r, b, c, d) done, demux-mux r carried) refl

-- The ids go up by one; the last word is followed by 1.
following_id_lem :
    (id : ℕ)
    → id < 2 ^ 64
    → (following_id id ≡ (if ltb (id + 1) (2 ^ 64) then id + 1 else 1)) × ¬ (following_id id ≡ id)
unfolding following_id
following_id_lem id lt = (ground arith, λ e. ground arith)

-- A call to a scheme whose queue is empty, served by a program that reads a packet into a buffer with
-- room for it, handles it and writes the answer: the call returns what the operation of the packet
-- returned, if that is a value or an error that a word can carry; the packet is then out of the queue,
-- its answer is out of the map, and the id of the next call, which is another one, is greater by
-- one, or 1 behind the last word. Words have 64 bits.
pub call_inner-serves {ℓ} :
    {H : Type ℓ} (scheme : Scheme H) (string_at : H → ℕ → List ℕ) (buf : List ℕ) (h h' : H)
    (r : Result) (a b c d : ℕ) (s : SchemeInner)
    → 40 ≤ length buf
    → s.todo ≡ []
    → Words (packet_of a b c d s)
    → Carried r
    → dispatch scheme string_at h (packet_of a b c d s) ≡ (r, h')
    → (call_inner (serves scheme string_at buf h) a b c d s
        ≡ some (
          r,
          record s { next_id = following_id s.next_id; todo = []; done = remove s.next_id s.done },
        ))
      × (following_id s.next_id ≡ (if ltb (s.next_id + 1) (2 ^ 64) then s.next_id + 1 else 1))
      × ¬ (following_id s.next_id ≡ s.next_id)
unfolding call_inner send_call left
call_inner-serves scheme string_at buf h h' r a b c d s n idle w carried does =
    let p = packet_of a b c d s in
    let sent = send_call a b c d s in
    let queue : sent.todo ≡ p ∷ [] = ap {A = List Packet} (λ t. t ++ p ∷ []) idle in
    let (following, another) = following_id_lem s.next_id w.id in
    (
      ap (answered s.next_id) (serves_lem scheme string_at buf h h' r p n w does carried sent queue)
          ∙ answered-insert (record sent { todo = [] }) s.next_id b c d r s.done carried,
      following,
      another,
    )
