-- ===== src/Network/Ip/Connect/Resolve.antt =====
-- The request for an address and its answer, between `open` of kernel/network/schemes/ip.rs and
-- `reply_loop` of kernel/network/schemes/arp.rs.
use redox.Prelude.{ℕ, suc, ◌≡◌, refl, true, false, List, [], ◌∷◌, ◌++◌, some, length, arith}
use redox.Prelude.Results.{ok}
use redox.Network.Arp.{Arp, arp_to_bytes, for_host, reply_loop, response, response_to}
use redox.Network.Arp.Format.{Sized, arp_from_bytes-arp_to_bytes}
use redox.Network.Bytes.{new16, get16, equals}
use redox.Network.Bytes.Laws.{get16-new16, equals_iff}
use redox.Network.Ethernet.{broadcast_mac_addr}
use redox.Network.Ip.Connect.{
  ArpEntry, IpScheme, find_mac, link_url, arp_type, System, request, answers, await_answer, ask,
  resolve,
}
use redox.Network.Link.{gives, Resource}

equals_self : (xs : List ℕ) → equals xs xs ≡ true
equals_self xs = (equals_iff xs xs refl).1 refl

-- No entry of the table is of this address.
abbrev pub Unknown : List ArpEntry → List ℕ → Type 0
Unknown [] ip = Unit
Unknown (entry ∷ arp) ip = (equals entry.ip ip ≡ false) × Unknown arp ip

find_mac-Unknown :
    (arp : List ArpEntry) (ip : List ℕ) → Unknown arp ip → find_mac arp ip ≡ broadcast_mac_addr
unfolding find_mac
find_mac-Unknown [] ip u = refl
find_mac-Unknown (entry ∷ arp) ip u = rw u.0 (find_mac-Unknown arp ip u.1)

find_mac-append :
    (arp : List ArpEntry) (ip mac : List ℕ)
    → Unknown arp ip
    → find_mac (arp ++ record { ip = ip; mac = mac } ∷ []) ip ≡ mac
unfolding find_mac
find_mac-append [] ip mac u = rw (equals_self ip) refl
find_mac-append (entry ∷ arp) ip mac u = rw u.0 (find_mac-append arp ip mac u.1)

module _ (mac_a ip_a mac_b ip_b : List ℕ) (ma : length mac_a ≡ 6) (ia : length ip_a ≡ 4)
    (mb : length mac_b ≡ 6) (ib : length ip_b ≡ 4) where
  question : Arp
  question = request mac_a ip_a broadcast_mac_addr ip_b

  question-Sized : Sized question.header
  unfolding question request
  question-Sized = record { src_mac = ma; src_ip = ia; dst_mac = refl; dst_ip = ib }

  for_host-question : for_host mac_b ip_b question ≡ true
  unfolding for_host question request
  for_host-question =
      let oper : get16 (new16 1) ≡ 1 = get16-new16 1 (omega arith) in
      rw (oper, equals_self ip_b) refl

  response_to-question :
      response_to mac_b ip_b (arp_to_bytes question) ≡ some (response mac_b ip_b question)
  unfolding response_to
  response_to-question =
      rw (response_to, arp_from_bytes-arp_to_bytes question question-Sized, for_host-question) refl

  answer : Arp
  answer = response mac_b ip_b question

  answer-Sized : Sized answer.header
  unfolding answer response question request
  answer-Sized = record { src_mac = mb; src_ip = ib; dst_mac = ma; dst_ip = ia }

  answers-answer : answers ip_b answer ≡ true
  unfolding answers answer response question request
  answers-answer =
      let oper : get16 (new16 2) ≡ 2 = get16-new16 2 (omega arith) in
      rw (oper, equals_self ip_b) refl

  module _ {κ} {L : Type κ} (below : Resource L) (l l' : L) (fuel n : ℕ)
      (reads : below.read_to_end l [] ≡ gives n (arp_to_bytes answer) l') where
    await_answer-answer : await_answer below (suc fuel) l ip_b ≡ some mac_b
    unfolding await_answer answer response
    await_answer-answer =
        rw (await_answer, reads, arp_from_bytes-arp_to_bytes answer answer-Sized, answers-answer)
          refl

    -- Opened at a link that gives the answer, the request puts it into the table.
    resolve-answer {ℓ} :
        {W : Type ℓ} (system : System W L) (scheme : IpScheme) (w w' : W) (k m : ℕ) (link : L)
        → Unknown scheme.arp ip_b
        → system.open_link w (link_url broadcast_mac_addr arp_type) ≡ (some link, w')
        → below.write link (arp_to_bytes question) ≡ (ok m, l)
        → resolve system below mac_a ip_a (suc fuel) scheme w ip_b
          ≡ some (mac_b, record { arp = scheme.arp ++ record { ip = ip_b; mac = mac_b } ∷ [] }, w')
    unfolding resolve ask question
    resolve-answer system scheme w w' k m link u opens writes =
        rw
          (
            resolve,
            find_mac-Unknown scheme.arp ip_b u,
            equals_self broadcast_mac_addr,
            ask,
            opens,
            writes,
            writes,
            await_answer-answer,
            opens,
          )
          refl

  reply_loop-question {κ} :
      {S : Type κ} (below : Resource S) (s t : S) (fuel n : ℕ)
      → below.read_to_end s [] ≡ gives n (arp_to_bytes question) t
      → reply_loop below mac_b ip_b (suc fuel) s
        ≡ reply_loop below mac_b ip_b fuel (below.write t (arp_to_bytes answer)).1
  unfolding reply_loop answer
  reply_loop-question below s t fuel n reads = rw (reply_loop, reads, response_to-question) refl

-- What the asked host answers to a request.
abbrev pub answer_of : List ℕ → List ℕ → List ℕ → List ℕ → Arp
answer_of mac_a ip_a mac_b ip_b = response mac_b ip_b (request mac_a ip_a broadcast_mac_addr ip_b)

-- One host asks for an address that its table does not have, and the other, whose address it is,
-- answers. A round of `reply_loop` whose link gives the request writes the answer; `resolve`, given
-- the answer by the link that it opened and wrote to, returns the other host's MAC address and
-- enters it, and a second `resolve` finds it in the table, without the system, if it is not the
-- broadcast address. Addresses have six and four bytes.
pub resolve-reply_loop {ℓ κ ℓ'} :
    {W : Type ℓ} {L : Type κ} {S : Type ℓ'} (system : System W L) (below : Resource L)
    (other : Resource S) (mac_a ip_a mac_b ip_b : List ℕ) (scheme : IpScheme) (w w' : W)
    (link l l' : L) (s t : S) (fuel n m k : ℕ)
    → length mac_a ≡ 6
    → length ip_a ≡ 4
    → length mac_b ≡ 6
    → length ip_b ≡ 4
    → Unknown scheme.arp ip_b
    → equals mac_b broadcast_mac_addr ≡ false
    → let question = arp_to_bytes (request mac_a ip_a broadcast_mac_addr ip_b) in
      let answer = arp_to_bytes (answer_of mac_a ip_a mac_b ip_b) in
      let known : IpScheme = record {
        arp = scheme.arp ++ record { ip = ip_b; mac = mac_b } ∷ [];
      } in
      system.open_link w (link_url broadcast_mac_addr arp_type) ≡ (some link, w')
      → below.write link question ≡ (ok m, l)
      → other.read_to_end s [] ≡ gives k question t
      → below.read_to_end l [] ≡ gives n answer l'
      → (reply_loop other mac_b ip_b (suc fuel) s
          ≡ reply_loop other mac_b ip_b fuel (other.write t answer).1)
        × (resolve system below mac_a ip_a (suc fuel) scheme w ip_b ≡ some (mac_b, known, w'))
        × (resolve system below mac_a ip_a fuel known w' ip_b ≡ some (mac_b, known, w'))
unfolding question answer resolve
resolve-reply_loop system below other mac_a ip_a mac_b ip_b scheme w w' link l l' s t fuel n m k ma
      ia mb ib u single opens writes asks reads =
    (
      reply_loop-question mac_a ip_a mac_b ip_b ma ia mb ib other s t fuel k asks,
      resolve-answer mac_a ip_a mac_b ip_b ma ia mb ib below l l' fuel n reads system scheme w w' k
          m link u opens writes,
      rw (resolve, find_mac-append scheme.arp ip_b mac_b u, single) refl,
    )
