-- ===== src/RemoteKey/Protocol.antt =====
-- src/remote_key_protocol.h: packets of timestamped key edges, and their bytes.
pub mod Integers
pub mod RoundTrip
pub mod Bounds
use cwsd.Shared.{
  ℕ, zero, suc, ◌+◌, ◌-◌, ◌*◌, ◌/◌, ◌%◌, ◌^◌, not, ◌||◌, Option, none, some, List, [], ◌∷◌, ◌++◌,
  length, drop, get_or, ltb, ◌==◌, if◌then◌else◌,
}

abbrev pub magic : ℕ
magic = 0xc7

abbrev pub version : ℕ
version = 1

abbrev pub header_bytes : ℕ
header_bytes = 6

abbrev pub edge_bytes : ℕ
edge_bytes = 9

abbrev pub max_edges : ℕ
max_edges = 32

abbrev pub max_packet_bytes : ℕ
max_packet_bytes = header_bytes + max_edges * edge_bytes

-- `edge`: microseconds on the operator's clock, and the bits `KEY_DOWN` and `PTT_REQ`.
pub record Edge : Type 0 where
  pub ts_us : ℕ
  pub state : ℕ

pub record Packet : Type 0 where
  pub session_id : ℕ
  pub flags : ℕ
  pub edges : List Edge

-- `put_u16`
pub put_u16 : ℕ → List ℕ
put_u16 v = v / 2 ^ 8 % 2 ^ 8 ∷ v % 2 ^ 8 ∷ []

-- The loop of `put_u64` with `k` bytes left: the round of `i = 8 - k` writes `v >> (56 - 8 * i)`.
pub put_bytes : ℕ → ℕ → List ℕ
put_bytes zero v = []
put_bytes (suc k) v = v / 2 ^ (8 * k) % 2 ^ 8 ∷ put_bytes k v

pub put_u64 : ℕ → List ℕ
unfolding put_bytes
put_u64 v = put_bytes 8 v

-- `get_u16`; `|` joins a multiple of 2 ^ 8 and a byte, so it is `+`.
unfoldable pub get_u16 : List ℕ → ℕ
get_u16 p = get_or p 0 0 * 2 ^ 8 % 2 ^ 16 + get_or p 1 0

-- The loop of `get_u64` with `k` bytes left: `v = v << 8 | p[i]`.
pub get_bytes : ℕ → ℕ → List ℕ → ℕ
get_bytes zero v p = v
get_bytes (suc k) v p = get_bytes k (v * 2 ^ 8 % 2 ^ 64 + get_or p 0 0) (drop 1 p)

pub get_u64 : List ℕ → ℕ
unfolding get_bytes
get_u64 p = get_bytes 8 0 p

-- The body of the loop of `encode`.
pub encode_edge : Edge → List ℕ
encode_edge e = put_u64 e.ts_us ++ e.state ∷ []

pub encode_edges : List Edge → List ℕ
encode_edges [] = []
encode_edges (e ∷ es) = encode_edge e ++ encode_edges es

-- How many edges `encode` sends.
abbrev pub sent_edges : Packet → ℕ
sent_edges pkt = if ltb max_edges (length pkt.edges) then max_edges else length pkt.edges

-- `encode`: the header, then the last `n` edges.
pub encode : Packet → List ℕ
encode pkt =
    let n = sent_edges pkt in
    (magic ∷ version ∷ pkt.flags ∷ put_u16 pkt.session_id ++ n % 2 ^ 8 ∷ [])
    ++ encode_edges (drop (length pkt.edges - n) pkt.edges)

-- The loop of `decode` with `n` edges left, `e` pointing to the next one.
unfoldable pub decode_edges : ℕ → List ℕ → List Edge
decode_edges zero e = []
decode_edges (suc n) e =
    record { ts_us = get_u64 e; state = get_or e 8 0 } ∷ decode_edges n (drop edge_bytes e)

-- `decode`: `none` is the result `false`.
unfoldable pub decode : List ℕ → Option Packet
decode buf =
    if ltb (length buf) header_bytes
      || not (get_or buf 0 0 == magic)
      || not (get_or buf 1 0 == version)
    then none
    else let count = get_or buf 5 0 in
      if ltb (length buf) (header_bytes + count * edge_bytes)
      then none
      else some (record {
        session_id = get_u16 (drop 3 buf);
        flags = get_or buf 2 0;
        edges = decode_edges count (drop header_bytes buf);
      })
