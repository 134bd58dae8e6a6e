-- ===== src/Network/Tcp/Transfer.antt =====
-- A write of one resource and a read of its peer, of kernel/network/schemes/tcp/main.rs.
use redox.Prelude.{
  ℕ, suc, ◌+◌, ◌%◌, ◌^◌, ◌≡◌, refl, true, List, [], ◌∷◌, ◌++◌, length, take, drop, min, arith, ◌==◌,
  ◌&&◌,
}
use redox.Network.Tcp.{
  Resource, Incoming, received, Result, ok, returns, for_me, masked, to_bytes, segment, send,
  copy_data, read, write,
}
use redox.Network.Tcp.Format.{sequence-segment, ack_num-segment, masked-segment, payload-segment}
use redox.Network.Tcp.Handshake.{InBounds, Peers, for_me-segment, await-segment, arrived-segment}

copy_data_lem :
    (buf bytes : List ℕ)
    → let n = min (length buf) (length bytes) in
      copy_data buf bytes ≡ (take n bytes ++ drop n buf, n)
unfolding copy_data
copy_data_lem [] bytes = let e : min 0 (length bytes) ≡ 0 = omega arith in rw e refl
copy_data_lem (x ∷ buf) [] = let e : min (suc (length buf)) 0 ≡ 0 = omega arith in rw e refl
copy_data_lem (x ∷ buf) (b ∷ bytes) =
    let n = min (length buf) (length bytes) in
    let e : min (suc (length buf)) (suc (length bytes)) ≡ suc n = omega arith in
    let one : n + 1 ≡ suc n = omega arith in rw (e, copy_data_lem buf bytes, one) refl

-- Each side's sequence is what the other acknowledges.
pub record InSync (c s : Resource) : Type 0 where
  pub to_server : s.acknowledge ≡ c.sequence
  pub to_client : c.acknowledge ≡ s.sequence

-- Both sides behind a write of `n` bytes by `c`.
abbrev pub reader_after : Resource → Resource → ℕ → Resource
reader_after c s n = record s { acknowledge = (c.sequence + n) % 2 ^ 32 }

abbrev pub writer_after : Resource → ℕ → Resource
writer_after c n = record c { sequence = (c.sequence + n) % 2 ^ 32 }

module _ (c s : Resource) (bytes : List ℕ) (p : Peers c s) (bc : InBounds c) (bs : InBounds s)
    (sync : InSync c s) where
  read_data :
      (buf : List ℕ) (rest : List Incoming) (sent : List (List ℕ))
      → let n = min (length buf) (length bytes) in
        let s' = reader_after c s (length bytes) in
        read s
          (record { incoming = received (to_bytes (segment c 24 bytes)) ∷ rest; outgoing = sent })
          buf
        ≡ returns
            (take n bytes ++ drop n buf, ok n)
            s'
            (record { incoming = rest; outgoing = sent ++ to_bytes (segment s' 16 []) ∷ [] })
  unfolding read send
  read_data buf rest sent =
      let m : masked (segment c 24 bytes) ≡ 24 = masked-segment c 24 bytes (omega arith) in
      let back : Peers s c = record { to_server = p.to_client; to_client = p.to_server } in
      let mine = for_me-segment s c 24 bytes back bc in
      let wanted : (masked (segment c 24 bytes) == 24 && for_me s (segment c 24 bytes)) ≡ true =
        rw (m, mine) refl in
      rw
        (
          read,
          await-segment (λ t. masked t == 24 && for_me s t) c 24 bytes rest (omega arith) wanted,
          sequence-segment c 24 bytes bc.sequence,
          ack_num-segment c 24 bytes bc.acknowledge,
          payload-segment c 24 bytes,
          copy_data_lem buf bytes,
          sync.to_client,
        )
        refl

  write_acknowledged :
      (write_result : List ℕ → Result) (size : ℕ) (rest : List Incoming) (sent : List (List ℕ))
      → write_result (to_bytes (segment c 24 bytes)) ≡ ok size
      → let s' = reader_after c s (length bytes) in
        write write_result c
          (record { incoming = received (to_bytes (segment s' 16 [])) ∷ rest; outgoing = sent })
          bytes
        ≡ returns
            (ok size)
            (writer_after c (length bytes))
            (record { incoming = rest; outgoing = sent ++ to_bytes (segment c 24 bytes) ∷ [] })
  unfolding write send
  write_acknowledged write_result size rest sent w =
      let s' = reader_after c s (length bytes) in
      let b' : InBounds s' = record {
        peer_port = bs.peer_port;
        host_port = bs.host_port;
        sequence = bs.sequence;
        acknowledge = omega arith;
      } in
      let p' : Peers c s' = record { to_server = p.to_server; to_client = p.to_client } in
      let m : masked (segment s' 16 []) ≡ 16 = masked-segment s' 16 [] (omega arith) in
      rw
        (
          write,
          w,
          arrived-segment c s' 16 [] rest p' b' (omega arith),
          m,
          ack_num-segment s' 16 [] b'.acknowledge,
          sequence-segment s' 16 [] b'.sequence,
          sync.to_client,
        )
        refl

-- Between peers in bounds and in sync: given the segment that `write` sends, `read` fills its buffer
-- with the written bytes, as many as fit, leaves the rest of the buffer, returns their number and
-- answers with an ACK; given that ACK, `write` returns what its write to the IP resource returned.
-- Afterwards the two are in sync again, all of the bytes acknowledged.
pub exchange :
    (write_result : List ℕ → Result) (c s : Resource) (bytes buf : List ℕ) (size : ℕ)
    (rest_c rest_s : List Incoming) (sent_c sent_s : List (List ℕ))
    → Peers c s
    → InBounds c
    → InBounds s
    → InSync c s
    → write_result (to_bytes (segment c 24 bytes)) ≡ ok size
    → let n = min (length buf) (length bytes) in
      let c' = writer_after c (length bytes) in
      let s' = reader_after c s (length bytes) in
      let sent = to_bytes (segment c 24 bytes) in
      let ack = to_bytes (segment s' 16 []) in
      (read s (record { incoming = received sent ∷ rest_s; outgoing = sent_s }) buf
        ≡ returns
            (take n bytes ++ drop n buf, ok n)
            s'
            (record { incoming = rest_s; outgoing = sent_s ++ ack ∷ [] }))
      × (write write_result c (record { incoming = received ack ∷ rest_c; outgoing = sent_c }) bytes
          ≡ returns (ok size) c' (record { incoming = rest_c; outgoing = sent_c ++ sent ∷ [] }))
      × InSync c' s'
exchange write_result c s bytes buf size rest_c rest_s sent_c sent_s p bc bs sync w = (
  read_data c s bytes p bc bs sync buf rest_s sent_s,
  write_acknowledged c s bytes p bc bs sync write_result size rest_c sent_c w,
  record { to_server = refl; to_client = sync.to_client },
)
