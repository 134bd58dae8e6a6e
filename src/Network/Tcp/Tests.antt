-- ===== src/Network/Tcp/Tests.antt =====
-- A client at port 40000 and a server at port 80.
use redox.Prelude.{ℕ, ◌-◌, ◌^◌, ◌≡◌, refl, true, List, [], ◌∷◌, length, arith}
use redox.Network.Tcp.{
  Tcp, Resource, received, Result, ok, returns, header_len, to_bytes, segment, read, write,
  client_establish, server_establish,
}
use redox.Network.Bytes.{new16, new32}
use redox.Network.Bytes.Laws.{get16-new16}
use redox.Network.Tcp.Handshake.{
  InBounds, Peers, syn_received, client_after, server_after, handshake,
}
use redox.Network.Tcp.Transfer.{InSync, writer_after, reader_after, exchange}

abbrev client : Resource
client = record {
  peer_addr = 10 ∷ 85 ∷ 85 ∷ 1 ∷ [];
  peer_port = 80;
  host_port = 40_000;
  sequence = 2 ^ 32 - 1;
  acknowledge = 0;
}

abbrev server : Resource
server = record {
  peer_addr = 10 ∷ 85 ∷ 85 ∷ 2 ∷ [];
  peer_port = 40_000;
  host_port = 80;
  sequence = 700;
  acknowledge = 2 ^ 32 - 1;
}

client-server-Peers : Peers client server
client-server-Peers = record { to_server = refl; to_client = refl }

client-InBounds : InBounds client
client-InBounds = record {
  peer_port = omega arith;
  host_port = omega arith;
  sequence = omega arith;
  acknowledge = omega arith;
}

server-InBounds : InBounds server
server-InBounds = record {
  peer_port = omega arith;
  host_port = omega arith;
  sequence = omega arith;
  acknowledge = omega arith;
}

abbrev all_written : List ℕ → Result
all_written bytes = ok (length bytes)

-- A segment with one option word.
abbrev with_option : Tcp
with_option = record {
  header = record {
    src = new16 80;
    dst = new16 40_000;
    sequence = new32 700;
    ack_num = new32 0;
    flags = new16 0x6010;
    window_size = new16 1024;
    checksum = 77;
    urgent_pointer = new16 0;
  };
  options = 1 ∷ 1 ∷ 1 ∷ 0 ∷ [];
  payload = b'h' ∷ b'i' ∷ [];
}

header_len-with_option : header_len with_option.header ≡ 24
unfolding header_len
header_len-with_option = rw (get16-new16 0x6010 (omega arith)) refl

handshake_example :
    let syn = to_bytes (segment client 2 []) in
    let syn_ack = to_bytes (segment (syn_received server) 18 []) in
    let ack = to_bytes (segment (client_after client server) 16 []) in
    (client_establish all_written client
        (record { incoming = received syn_ack ∷ []; outgoing = [] })
      ≡ returns true
          (client_after client server)
          (record { incoming = []; outgoing = syn ∷ ack ∷ [] }))
    × (server_establish all_written server (record { incoming = received ack ∷ []; outgoing = [] })
        ≡ returns true
            (server_after client server)
            (record { incoming = []; outgoing = syn_ack ∷ [] }))
handshake_example =
    handshake all_written client server (length (to_bytes (segment client 2 [])))
      (length (to_bytes (segment (syn_received server) 18 []))) [] [] [] [] client-server-Peers
      client-InBounds server-InBounds refl refl refl

abbrev connected : Resource
connected = client_after client server

abbrev accepted : Resource
accepted = server_after client server

abbrev hello : List ℕ
hello = b'h' ∷ b'e' ∷ b'l' ∷ b'l' ∷ b'o' ∷ []

connected-InBounds : InBounds connected
connected-InBounds = record {
  peer_port = omega arith;
  host_port = omega arith;
  sequence = omega arith;
  acknowledge = omega arith;
}

accepted-InBounds : InBounds accepted
accepted-InBounds = record {
  peer_port = omega arith;
  host_port = omega arith;
  sequence = omega arith;
  acknowledge = omega arith;
}

exchange_example :
    let s' = reader_after connected accepted 5 in
    let sent = to_bytes (segment connected 24 hello) in
    let ack = to_bytes (segment s' 16 []) in
    (read accepted (record { incoming = received sent ∷ []; outgoing = [] }) (0 ∷ 0 ∷ 0 ∷ [])
      ≡ returns (b'h' ∷ b'e' ∷ b'l' ∷ [], ok 3) s' (record { incoming = []; outgoing = ack ∷ [] }))
    × (write all_written connected (record { incoming = received ack ∷ []; outgoing = [] }) hello
        ≡ returns
            (ok (length sent))
            (writer_after connected 5)
            (record { incoming = []; outgoing = sent ∷ [] }))
    × InSync (writer_after connected 5) s'
exchange_example =
    exchange all_written connected accepted hello (0 ∷ 0 ∷ 0 ∷ [])
      (length (to_bytes (segment connected 24 hello))) [] [] [] []
      (record { to_server = refl; to_client = refl }) connected-InBounds accepted-InBounds
      (record { to_server = refl; to_client = refl }) refl
