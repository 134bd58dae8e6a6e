-- ===== src/Network/Tcp/Handshake.antt =====
-- Two resources of kernel/network/schemes/tcp/main.rs that talk to each other.
use redox.Prelude.{
  ℕ, ◌+◌, ◌%◌, ◌^◌, ◌<◌, ◌≡◌, refl, ap, Bool, true, List, [], ◌∷◌, ◌++◌, arith, ==_refl,
}
use redox.Network.Tcp.{
  Tcp, Resource, Incoming, received, Result, ok, returns, arrived, await, for_me, masked, to_bytes,
  segment, send, client_establish, server_establish,
}
use redox.Network.Tcp.Format.{
  from_bytes-segment, src-segment, dst-segment, sequence-segment, ack_num-segment, masked-segment,
}

-- Ports and numbers fit their types.
pub record InBounds (r : Resource) : Type 0 where
  pub peer_port : r.peer_port < 2 ^ 16
  pub host_port : r.host_port < 2 ^ 16
  pub sequence : r.sequence < 2 ^ 32
  pub acknowledge : r.acknowledge < 2 ^ 32

-- Each is the other's peer.
pub record Peers (c s : Resource) : Type 0 where
  pub to_server : c.peer_port ≡ s.host_port
  pub to_client : s.peer_port ≡ c.host_port

pub for_me-segment :
    (c s : Resource) (flags : ℕ) (bytes : List ℕ)
    → Peers c s
    → InBounds s
    → for_me c (segment s flags bytes) ≡ true
unfolding for_me
for_me-segment c s flags bytes p b =
    rw
      (
        dst-segment s flags bytes b.peer_port,
        src-segment s flags bytes b.host_port,
        p.to_server,
        p.to_client,
        ==_refl c.host_port,
        ==_refl s.host_port,
      )
      refl

pub await-segment :
    (wanted : Tcp → Bool) (s : Resource) (flags : ℕ) (bytes : List ℕ) (rest : List Incoming)
    → flags < 2 ^ 12
    → wanted (segment s flags bytes) ≡ true
    → await wanted (received (to_bytes (segment s flags bytes)) ∷ rest)
      ≡ arrived (segment s flags bytes) rest
unfolding await
await-segment wanted s flags bytes rest h w = rw (await, from_bytes-segment s flags bytes h, w) refl

-- The first segment of a peer that is waiting is taken by whoever waits for any segment from it.
pub arrived-segment :
    (c s : Resource) (flags : ℕ) (bytes : List ℕ) (rest : List Incoming)
    → Peers c s
    → InBounds s
    → flags < 2 ^ 12
    → await (for_me c) (received (to_bytes (segment s flags bytes)) ∷ rest)
      ≡ arrived (segment s flags bytes) rest
arrived-segment c s flags bytes rest p b h =
    await-segment (for_me c) s flags bytes rest h (for_me-segment c s flags bytes p b)

module _ (write_result : List ℕ → Result) (c s : Resource) (n : ℕ) (rest : List Incoming)
    (sent : List (List ℕ)) where
  client_answered :
      Peers c s
      → InBounds s
      → write_result (to_bytes (segment c 2 [])) ≡ ok n
      → let c' : Resource = record c {
        sequence = s.acknowledge;
        acknowledge = (s.sequence + 1) % 2 ^ 32;
      } in
        client_establish write_result c
          (record { incoming = received (to_bytes (segment s 18 [])) ∷ rest; outgoing = sent })
        ≡ returns true c' (record {
          incoming = rest;
          outgoing = (sent ++ to_bytes (segment c 2 []) ∷ []) ++ to_bytes (segment c' 16 []) ∷ [];
        })
  unfolding client_establish send
  client_answered p b w =
      let m : masked (segment s 18 []) ≡ 18 = masked-segment s 18 [] (omega arith) in
      rw
        (
          client_establish,
          w,
          arrived-segment c s 18 [] rest p b (omega arith),
          m,
          ack_num-segment s 18 [] b.acknowledge,
          sequence-segment s 18 [] b.sequence,
        )
        refl

  server_answered :
      let s₁ : Resource = record s { acknowledge = (s.acknowledge + 1) % 2 ^ 32 } in
      Peers s c
      → InBounds c
      → write_result (to_bytes (segment s₁ 18 [])) ≡ ok n
      → server_establish write_result s
          (record { incoming = received (to_bytes (segment c 16 [])) ∷ rest; outgoing = sent })
        ≡ returns true
            (record s { sequence = c.acknowledge; acknowledge = c.sequence })
            (record { incoming = rest; outgoing = sent ++ to_bytes (segment s₁ 18 []) ∷ [] })
  unfolding server_establish send
  server_answered p b w =
      let s₁ : Resource = record s { acknowledge = (s.acknowledge + 1) % 2 ^ 32 } in
      let p₁ : Peers s₁ c = record { to_server = p.to_server; to_client = p.to_client } in
      let m : masked (segment c 16 []) ≡ 16 = masked-segment c 16 [] (omega arith) in
      rw
        (
          server_establish,
          w,
          arrived-segment s₁ c 16 [] rest p₁ b (omega arith),
          m,
          ack_num-segment c 16 [] b.acknowledge,
          sequence-segment c 16 [] b.sequence,
        )
        refl

-- The server behind the arrival of the SYN, and both behind the handshake.
abbrev pub syn_received : Resource → Resource
syn_received s = record s { acknowledge = (s.acknowledge + 1) % 2 ^ 32 }

abbrev pub client_after : Resource → Resource → Resource
client_after c s = record c {
  sequence = (c.sequence + 1) % 2 ^ 32;
  acknowledge = (s.sequence + 1) % 2 ^ 32;
}

abbrev pub server_after : Resource → Resource → Resource
server_after c s = record s {
  sequence = (s.sequence + 1) % 2 ^ 32;
  acknowledge = (c.sequence + 1) % 2 ^ 32;
}

-- The three-way handshake between two peers in bounds, where the server's acknowledge is the
-- client's sequence and the writes succeed: given the server's SYN-ACK, `client_establish` returns
-- true and answers with an ACK; given that ACK, `server_establish` returns true. Each side's
-- sequence is one more than before, and is what the other side acknowledges.
pub handshake :
    (write_result : List ℕ → Result) (c s : Resource) (n m : ℕ) (rest_c rest_s : List Incoming)
    (sent_c sent_s : List (List ℕ))
    → Peers c s
    → InBounds c
    → InBounds s
    → s.acknowledge ≡ c.sequence
    → write_result (to_bytes (segment c 2 [])) ≡ ok n
    → write_result (to_bytes (segment (syn_received s) 18 [])) ≡ ok m
    → let syn = to_bytes (segment c 2 []) in
      let syn_ack = to_bytes (segment (syn_received s) 18 []) in
      let ack = to_bytes (segment (client_after c s) 16 []) in
      (client_establish write_result c
          (record { incoming = received syn_ack ∷ rest_c; outgoing = sent_c })
        ≡ returns true
            (client_after c s)
            (record { incoming = rest_c; outgoing = (sent_c ++ syn ∷ []) ++ ack ∷ [] }))
      × (server_establish write_result s
            (record { incoming = received ack ∷ rest_s; outgoing = sent_s })
          ≡ returns true
              (server_after c s)
              (record { incoming = rest_s; outgoing = sent_s ++ syn_ack ∷ [] }))
handshake write_result c s n m rest_c rest_s sent_c sent_s p bc bs e w w' = (client, server)
  where
    numbers : (s.acknowledge + 1) % 2 ^ 32 ≡ (c.sequence + 1) % 2 ^ 32
    numbers = ap (λ a. (a + 1) % 2 ^ 32) e

    s₁-InBounds : InBounds (syn_received s)
    s₁-InBounds = record {
      peer_port = bs.peer_port;
      host_port = bs.host_port;
      sequence = bs.sequence;
      acknowledge = omega arith;
    }

    c'-InBounds : InBounds (client_after c s)
    c'-InBounds = record {
      peer_port = bc.peer_port;
      host_port = bc.host_port;
      sequence = omega arith;
      acknowledge = omega arith;
    }

    client :
        client_establish write_result c (record {
          incoming = received (to_bytes (segment (syn_received s) 18 [])) ∷ rest_c;
          outgoing = sent_c;
        })
        ≡ returns true (client_after c s) (record {
          incoming = rest_c;
          outgoing =
              (sent_c ++ to_bytes (segment c 2 []) ∷ [])
              ++ to_bytes (segment (client_after c s) 16 []) ∷ [];
        })
    client =
        rw
          (
            client_answered write_result c (syn_received s) n rest_c sent_c
                (record { to_server = p.to_server; to_client = p.to_client }) s₁-InBounds w,
            numbers,
          )
          refl

    server :
        server_establish write_result s (record {
          incoming = received (to_bytes (segment (client_after c s) 16 [])) ∷ rest_s;
          outgoing = sent_s;
        })
        ≡ returns true (server_after c s) (record {
          incoming = rest_s;
          outgoing = sent_s ++ to_bytes (segment (syn_received s) 18 []) ∷ [];
        })
    server =
        server_answered write_result (client_after c s) s m rest_s sent_s
          (record { to_server = p.to_client; to_client = p.to_server }) c'-InBounds w'
