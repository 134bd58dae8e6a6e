-- ===== src/Network/Udp/Tests.antt =====
-- A resource on a card that gets no packet: port 4000 here, port 53 at the peer.
use redox.Prelude.{ℕ, ◌≡◌, refl, true, List, [], ◌∷◌, some, arith}
use redox.Prelude.Results.{ok}
use redox.Network.Checksum.{check}
use redox.Network.Link.{NetworkResource, Resource, card, waits}
use redox.Network.Udp.{UdpResource, copies, returned, read, datagram, udp_from_bytes, udp_to_bytes}
use redox.Network.Udp.Checked.{covered, check-datagram}
use redox.Network.Udp.Stuck.{read-pending}

abbrev host_addr : List ℕ
host_addr = 10 ∷ 85 ∷ 85 ∷ 2 ∷ []

abbrev resource : UdpResource NetworkResource
resource = record {
  ip = record { inbound = []; outbound = [] };
  pending = [];
  peer_addr = 10 ∷ 85 ∷ 85 ∷ 1 ∷ [];
  peer_port = 53;
  host_port = 4000;
}

abbrev network : Resource NetworkResource
network = card (λ r. r) (λ r vec. waits)

check-datagram_example :
    let sent = datagram host_addr resource (1 ∷ 2 ∷ 3 ∷ []) in
    (check (covered host_addr resource sent) ≡ true)
    × (udp_from_bytes (udp_to_bytes sent) ≡ some sent)
check-datagram_example =
    check-datagram host_addr resource (1 ∷ 2 ∷ 3 ∷ []) refl refl
      (omega arith, (omega arith, (omega arith, (omega arith, tt))))
      (omega arith, (omega arith, (omega arith, (omega arith, tt))))
      (omega arith, (omega arith, (omega arith, tt))) (omega arith)

read-pending_example :
    (read network 100 (record resource { pending = 7 ∷ [] }) (0 ∷ []) ≡ copies)
    × (read network 101 (record resource { pending = 7 ∷ [] }) []
        ≡ returned [] (ok 0) (record resource { pending = [] }))
read-pending_example = read-pending network resource 100 7 [] (0 ∷ []) (omega arith)
