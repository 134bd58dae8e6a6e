-- ===== src/Network/Icmp/Tests.antt =====
-- An echo request with four bytes of data.
use redox.Prelude.{◌≡◌, refl, true, [], ◌∷◌, some, arith}
use redox.Network.Checksum.{check}
use redox.Network.Icmp.{Icmp, icmp_from_bytes, icmp_to_bytes, icmp_response, icmp_response_to}
use redox.Network.Icmp.Laws.{icmp_response_to_lem}

abbrev ping : Icmp
ping = record {
  header = record { kind = 8; code = 0; checksum = 0x1234; words = 0 ∷ 1 ∷ 0 ∷ 9 ∷ [] };
  payload = b'p' ∷ b'i' ∷ b'n' ∷ b'g' ∷ [];
}

icmp_response_to_lem_example :
    let r = icmp_response ping in
    (icmp_response_to (icmp_to_bytes ping) ≡ some r)
    × (r.header.kind ≡ 0)
    × (r.header.code ≡ 0)
    × (r.header.words ≡ 0 ∷ 1 ∷ 0 ∷ 9 ∷ [])
    × (r.payload ≡ ping.payload)
    × (check (icmp_to_bytes r) ≡ true)
    × (icmp_from_bytes (icmp_to_bytes r) ≡ some r)
icmp_response_to_lem_example =
    icmp_response_to_lem ping refl refl (omega arith)
      (omega arith, (omega arith, (omega arith, (omega arith, tt))))
      (omega arith, (omega arith, (omega arith, (omega arith, tt)))) (omega arith) (omega arith)
