-- ===== src/Network/Ip/Tests.antt =====
-- Two hosts with network cards, and a packet that is too short before the frame that is read.
use redox.Prelude.{ℕ, ◌+◌, ◌≡◌, refl, true, false, List, [], ◌∷◌, ◌++◌, inl, some, length, arith}
use redox.Prelude.Results.{ok}
use redox.Network.Arp.{arp_to_bytes, reply_loop}
use redox.Network.Bytes.{equals}
use redox.Network.Checksum.{check}
use redox.Network.Link.{
  Reading, NetworkResource, Resource, card, gives, waits, GivesPackets, write as card_write,
}
use redox.Network.Ethernet.{ethernet, ethernet_from_bytes, broadcast_mac_addr}
use redox.Network.Ethernet.Delivery.{Peers, Passed}
use redox.Network.Ip.{read_to_end, write, checked, unchecked}
use redox.Network.Ip.Checked.{check-written}
use redox.Network.Ip.Connect.{System, IpScheme, request, resolve}
use redox.Network.Ip.Connect.Resolve.{answer_of, resolve-reply_loop}
use redox.Network.Ip.Delivery.{Host, IpPeers, frame_for, host_on_wire, writer, write-read_to_end}
use redox.Network.Ipv4.{ipv4_header_bytes}

abbrev mac_a : List ℕ
mac_a = 2 ∷ 0 ∷ 0 ∷ 0 ∷ 0 ∷ 1 ∷ []

abbrev mac_b : List ℕ
mac_b = 2 ∷ 0 ∷ 0 ∷ 0 ∷ 0 ∷ 2 ∷ []

abbrev ip_a : List ℕ
ip_a = 10 ∷ 85 ∷ 85 ∷ 1 ∷ []

abbrev ip_b : List ℕ
ip_b = 10 ∷ 85 ∷ 85 ∷ 2 ∷ []

abbrev wire : NetworkResource
wire = record { inbound = []; outbound = [] }

-- A card without a driver, whose packets are read one at a time.
abbrev receive : NetworkResource → List ℕ → Reading NetworkResource
receive r vec = elim r.inbound [
  | [] ↦ waits
  | bytes ∷ inbound ↦ gives (length bytes) (vec ++ bytes) (record r { inbound = inbound })
]

abbrev idle_card : NetworkResource → NetworkResource
idle_card r = r

receive-GivesPackets : GivesPackets receive
receive-GivesPackets bytes inbound outbound = refl

abbrev network : Resource NetworkResource
network = card idle_card receive

abbrev host_a : Host
host_a = record {
  link = record { network = wire; pending = []; peer_addr = mac_b; ethertype = 0x800 };
  pending = [];
  peer_addr = ip_b;
  proto = 6;
  id = 65_535;
}

abbrev host_b : Host
host_b = record {
  link = record { network = wire; pending = []; peer_addr = mac_a; ethertype = 0x800 };
  pending = [];
  peer_addr = ip_a;
  proto = 6;
  id = 0;
}

links-Peers : Peers mac_a mac_b host_a.link host_b.link
unfolding equals
links-Peers = record {
  length_a = refl;
  length_peer = refl;
  fits = omega arith;
  same_type = refl;
  to = refl;
  from = refl;
}

hosts-IpPeers : IpPeers ip_a ip_b host_a host_b
hosts-IpPeers = record {
  length_a = refl;
  length_b = refl;
  to = refl;
  from = refl;
  same_proto = refl;
}

-- A packet that is too short for a frame.
short-Passed : Passed mac_b host_b.link (1 ∷ [])
unfolding ethernet_from_bytes
short-Passed = inl refl

write-read_to_end_example :
    (write (ethernet network mac_a 9) ip_a host_a (1 ∷ 2 ∷ [])
      ≡ (ok 2, writer idle_card mac_a ip_a host_a (1 ∷ 2 ∷ [])))
    × (read_to_end
          (ethernet network mac_b 2)
          ip_b
          1
          (host_on_wire host_b ((1 ∷ []) ∷ frame_for mac_a ip_a host_a (1 ∷ 2 ∷ []) ∷ []))
          (7 ∷ [])
        ≡ gives 2 (7 ∷ 1 ∷ 2 ∷ []) (host_on_wire host_b []))
write-read_to_end_example =
    write-read_to_end idle_card idle_card receive receive mac_a mac_b ip_a ip_b host_a host_b 9 2 0
      (1 ∷ 2 ∷ []) (7 ∷ []) ((1 ∷ []) ∷ []) [] receive-GivesPackets links-Peers hosts-IpPeers
      (short-Passed, tt) (omega arith) refl refl

check-written_example :
    check (ipv4_header_bytes (checked (unchecked ip_a host_a 0 (1 ∷ 2 ∷ []))).header) ≡ true
check-written_example =
    check-written ip_a host_a 0 (1 ∷ 2 ∷ []) refl refl
      (omega arith, (omega arith, (omega arith, (omega arith, tt))))
      (omega arith, (omega arith, (omega arith, (omega arith, tt)))) (omega arith)

abbrev question : List ℕ
question = arp_to_bytes (request mac_a ip_a broadcast_mac_addr ip_b)

abbrev answer : List ℕ
answer = arp_to_bytes (answer_of mac_a ip_a mac_b ip_b)

-- Each link that is opened has got the answer; what is counted is the number of them.
abbrev answering : System ℕ NetworkResource
answering = record {
  open_link = λ w url. (some (record { inbound = answer ∷ []; outbound = [] }), w + 1);
  rand = λ w. (4, w);
}

mac_b-single : equals mac_b broadcast_mac_addr ≡ false
unfolding equals
mac_b-single = refl

reads-question :
    network.read_to_end (record { inbound = question ∷ []; outbound = [] }) []
    ≡ gives (length question) question wire
unfolding card
reads-question = refl

reads-answer :
    network.read_to_end (record { inbound = answer ∷ []; outbound = question ∷ [] }) []
    ≡ gives (length answer) answer (record { inbound = []; outbound = question ∷ [] })
unfolding card
reads-answer = refl

writes-question :
    network.write (record { inbound = answer ∷ []; outbound = [] }) question
    ≡ (ok (length question), record { inbound = answer ∷ []; outbound = question ∷ [] })
unfolding card card_write
writes-question = refl

resolve-reply_loop_example :
    let known : IpScheme = record { arp = record { ip = ip_b; mac = mac_b } ∷ [] } in
    let asked : NetworkResource = record { inbound = question ∷ []; outbound = [] } in
    (reply_loop network mac_b ip_b 5 asked
      ≡ reply_loop network mac_b ip_b 4 (network.write wire answer).1)
    × (resolve answering network mac_a ip_a 5 (record { arp = [] }) 0 ip_b ≡ some (mac_b, known, 1))
    × (resolve answering network mac_a ip_a 4 known 1 ip_b ≡ some (mac_b, known, 1))
resolve-reply_loop_example =
    resolve-reply_loop answering network network mac_a ip_a mac_b ip_b (record { arp = [] }) 0 1
      (record { inbound = answer ∷ []; outbound = [] })
      (record { inbound = answer ∷ []; outbound = question ∷ [] })
      (record { inbound = []; outbound = question ∷ [] })
      (record { inbound = question ∷ []; outbound = [] }) wire 4 (length answer) (length question)
      (length question) refl refl refl refl tt mac_b-single refl writes-question reads-question
      reads-answer
