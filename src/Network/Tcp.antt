-- ===== src/Network/Tcp.antt =====
-- The TCP scheme, kernel/network/schemes/tcp/main.rs, over the numbers and the checksum of
-- libstd/src/net.rs, which are those of kernel/network/common.rs. The IP resource is what its reads
-- will give, in order, and what was written to it; a call that reads beyond the last is waiting.
pub mod Format
pub mod Handshake
pub mod Transfer
mod Tests
use redox.Prelude.{
  ℕ, ◌+◌, ◌-◌, ◌*◌, ◌/◌, ◌%◌, ◌^◌, Bool, true, false, ◌&&◌, ◌||◌, List, [], ◌∷◌, ◌++◌, ltb, leb,
  ◌==◌, if◌then◌else◌, length, get_or, take, drop,
}
use redox.Network.Bytes.{N16, N32, new16, get16, new32, get32}
use redox.Network.Checksum.{sum, compile}

pub record TcpHeader : Type 0 where
  pub src : N16
  pub dst : N16
  pub sequence : N32
  pub ack_num : N32
  pub flags : N16
  pub window_size : N16
  pub checksum : ℕ
  pub urgent_pointer : N16

pub record Tcp : Type 0 where
  pub header : TcpHeader
  pub options : List ℕ
  pub payload : List ℕ

-- The bytes of the packed header; `Checksum` holds a native, little-endian u16.
pub header_bytes : TcpHeader → List ℕ
header_bytes h =
    h.src.b0
    ∷ h.src.b1
    ∷ h.dst.b0
    ∷ h.dst.b1
    ∷ h.sequence.b0
    ∷ h.sequence.b1
    ∷ h.sequence.b2
    ∷ h.sequence.b3
    ∷ h.ack_num.b0
    ∷ h.ack_num.b1
    ∷ h.ack_num.b2
    ∷ h.ack_num.b3
    ∷ h.flags.b0
    ∷ h.flags.b1
    ∷ h.window_size.b0
    ∷ h.window_size.b1
    ∷ h.checksum % 256
    ∷ h.checksum / 256
    ∷ h.urgent_pointer.b0
    ∷ h.urgent_pointer.b1
    ∷ []

-- `*(bytes.as_ptr() as *const TcpHeader)`, of at least 20 bytes
pub header_at : List ℕ → TcpHeader
header_at bytes =
    let at : ℕ → ℕ = λ i. get_or bytes i 0 in
    record {
      src = record { b0 = at 0; b1 = at 1 };
      dst = record { b0 = at 2; b1 = at 3 };
      sequence = record { b0 = at 4; b1 = at 5; b2 = at 6; b3 = at 7 };
      ack_num = record { b0 = at 8; b1 = at 9; b2 = at 10; b3 = at 11 };
      flags = record { b0 = at 12; b1 = at 13 };
      window_size = record { b0 = at 14; b1 = at 15 };
      checksum = at 16 + 256 * at 17;
      urgent_pointer = record { b0 = at 18; b1 = at 19 };
    }

-- `((header.flags.get() & 0xF000) >> 10) as usize`
pub header_len : TcpHeader → ℕ
header_len h = get16 h.flags / 2 ^ 12 % 2 ^ 4 * 2 ^ 2

-- What `from_bytes` does: the two slices panic out of range.
pub data Parsed : Type 0 where
  panics : Parsed
  too_short : Parsed
  parsed : Tcp → Parsed

pub from_bytes : List ℕ → Parsed
from_bytes bytes =
    let header = header_at bytes in
    let len = header_len header in
    if leb 20 (length bytes)
    then (if leb 20 len && leb len (length bytes)
        then parsed (record {
          header = header;
          options = take (len - 20) (drop 20 bytes);
          payload = drop len bytes;
        })
        else panics)
    else too_short

pub to_bytes : Tcp → List ℕ
to_bytes t = header_bytes t.header ++ t.options ++ t.payload

-- `flags.get() & (TCP_PSH | TCP_SYN | TCP_ACK)`
pub masked : Tcp → ℕ
masked t = let f = get16 t.header.flags in f / 2 % 2 * 2 + f / 8 % 2 * 8 + f / 16 % 2 * 16

pub record Resource : Type 0 where
  pub peer_addr : List ℕ
  pub peer_port : ℕ
  pub host_port : ℕ
  pub sequence : ℕ
  pub acknowledge : ℕ

abbrev pub ip_addr : List ℕ
ip_addr = 10 ∷ 85 ∷ 85 ∷ 2 ∷ []

-- The segment that a call sends, before its checksum: no bit of `flags` is in 0xF000.
pub unchecked : Resource → ℕ → List ℕ → Tcp
unchecked r flags bytes = record {
  header = record {
    src = new16 r.host_port;
    dst = new16 r.peer_port;
    sequence = new32 r.sequence;
    ack_num = new32 r.acknowledge;
    flags = new16 (0x5000 + flags);
    window_size = new16 65535;
    checksum = 0;
    urgent_pointer = new16 0;
  };
  options = [];
  payload = bytes;
}

pub n16_bytes : N16 → List ℕ
n16_bytes n = n.b0 ∷ n.b1 ∷ []

-- The sum over the pseudo header and the parts of the segment, in 64 bits.
pub segment_sum : Resource → Tcp → ℕ
segment_sum r t =
    (sum ip_addr
      + sum r.peer_addr
      + sum (n16_bytes (new16 0x06))
      + sum (n16_bytes (new16 ((20 + length t.options + length t.payload) % 2 ^ 16)))
      + sum (header_bytes t.header)
      + sum t.options
      + sum t.payload)
    % 2 ^ 64

pub segment : Resource → ℕ → List ℕ → Tcp
segment r flags bytes =
    let t = unchecked r flags bytes in
    record t { header = record t.header { checksum = compile (segment_sum r t) } }

-- One result of `read_to_end` on the IP resource, and of a call.
pub data Incoming : Type 0 where
  received : List ℕ → Incoming
  failed : ℕ → Incoming

pub data Result : Type 0 where
  ok : ℕ → Result
  err : ℕ → Result

pub record Ip : Type 0 where
  pub incoming : List Incoming
  pub outgoing : List (List ℕ)

pub data Outcome {ℓ} (A : Type ℓ) : Type ℓ where
  returns : A → Resource → Ip → Outcome A
  waits : Outcome A
  panicked : Outcome A

pub data Awaited : Type 0 where
  arrived : Tcp → List Incoming → Awaited
  refused : ℕ → List Incoming → Awaited
  nothing : Awaited
  crash : Awaited

-- The loop that the four calls share: the first segment that they want, or the first error.
pub await : (Tcp → Bool) → List Incoming → Awaited
await wanted [] = nothing
await wanted (failed e ∷ rest) = refused e rest
await wanted (received bytes ∷ rest) =
    let later = await wanted rest in
    elim (from_bytes bytes) [
      | panics ↦ crash
      | too_short ↦ later
      | parsed t ↦ if wanted t then arrived t rest else later
    ]

pub for_me : Resource → Tcp → Bool
for_me r t = get16 t.header.dst == r.host_port && get16 t.header.src == r.peer_port

-- `while i < buf.len() && i < segment.data.len() { buf[i] = segment.data[i]; i += 1; }`
pub copy_data : List ℕ → List ℕ → List ℕ × ℕ
copy_data [] bytes = ([], 0)
copy_data (x ∷ buf) [] = (x ∷ buf, 0)
copy_data (x ∷ buf) (b ∷ bytes) = let (rest, i) = copy_data buf bytes in (b ∷ rest, i + 1)

pub send : Ip → List ℕ → Ip
send ip bytes = record ip { outgoing = ip.outgoing ++ bytes ∷ [] }

pub read : Resource → Ip → List ℕ → Outcome (List ℕ × Result)
read r ip buf = elim (await (λ t. masked t == 24 && for_me r t) ip.incoming) [
  | arrived t rest ↦
      let r' : Resource = record r {
        sequence = get32 t.header.ack_num;
        acknowledge = (get32 t.header.sequence + length t.payload) % 2 ^ 32;
      } in
      let (buf', i) = copy_data buf t.payload in
      returns (buf', ok i) r' (send (record ip { incoming = rest }) (to_bytes (segment r' 16 [])))
  | refused e rest ↦ returns (buf, err e) r (record ip { incoming = rest })
  | nothing ↦ waits
  | crash ↦ panicked
]

-- `write_result` is what the IP resource returns for a write of these bytes.
module _ (write_result : List ℕ → Result) where
  pub write : Resource → Ip → List ℕ → Outcome Result
  write r ip buf =
      let bytes = to_bytes (segment r 24 buf) in
      elim (write_result bytes) [
        | err e ↦ returns (err e) r (send ip bytes)
        | ok size ↦ elim (await (for_me r) ip.incoming) [
          | arrived t rest ↦
              let ip' : Ip = record { incoming = rest; outgoing = ip.outgoing ++ bytes ∷ [] } in
              if masked t == 16
              then returns (ok size)
                  (record r {
                    sequence = get32 t.header.ack_num;
                    acknowledge = get32 t.header.sequence;
                  })
                  ip'
              else returns (err 32) r ip'
          | refused e rest ↦
              returns (err e) r (record { incoming = rest; outgoing = ip.outgoing ++ bytes ∷ [] })
          | nothing ↦ waits
          | crash ↦ panicked
        ]
      ]

  pub client_establish : Resource → Ip → Outcome Bool
  client_establish r ip =
      let syn = to_bytes (segment r 2 []) in
      elim (write_result syn) [
        | err e ↦ returns false r (send ip syn)
        | ok size ↦ elim (await (for_me r) ip.incoming) [
          | arrived t rest ↦
              let ip' : Ip = record { incoming = rest; outgoing = ip.outgoing ++ syn ∷ [] } in
              let r' : Resource = record r {
                sequence = get32 t.header.ack_num;
                acknowledge = (get32 t.header.sequence + 1) % 2 ^ 32;
              } in
              if masked t == 18
              then returns true r' (send ip' (to_bytes (segment r' 16 [])))
              else returns false r ip'
          | refused e rest ↦
              returns false r (record { incoming = rest; outgoing = ip.outgoing ++ syn ∷ [] })
          | nothing ↦ waits
          | crash ↦ panicked
        ]
      ]

  pub server_establish : Resource → Ip → Outcome Bool
  server_establish r₀ ip =
      let r : Resource = record r₀ { acknowledge = (r₀.acknowledge + 1) % 2 ^ 32 } in
      let syn_ack = to_bytes (segment r 18 []) in
      elim (write_result syn_ack) [
        | err e ↦ returns false r (send ip syn_ack)
        | ok size ↦ elim (await (for_me r) ip.incoming) [
          | arrived t rest ↦
              let ip' : Ip = record { incoming = rest; outgoing = ip.outgoing ++ syn_ack ∷ [] } in
              if masked t == 16
              then returns true
                  (record r {
                    sequence = get32 t.header.ack_num;
                    acknowledge = get32 t.header.sequence;
                  })
                  ip'
              else returns false r ip'
          | refused e rest ↦
              returns false r (record { incoming = rest; outgoing = ip.outgoing ++ syn_ack ∷ [] })
          | nothing ↦ waits
          | crash ↦ panicked
        ]
      ]

-- `drop`: the result of the write is ignored.
pub close : Resource → Ip → Ip
close r ip = send ip (to_bytes (segment r 17 []))
