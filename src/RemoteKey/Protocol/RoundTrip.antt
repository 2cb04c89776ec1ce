-- ===== src/RemoteKey/Protocol/RoundTrip.antt =====
-- What `encode` writes, `decode` reads.
use cwsd.Shared.{
  ℕ, zero, suc, ◌+◌, ◌-◌, ◌*◌, ◌/◌, ◌%◌, ◌^◌, ◌≤◌, ◌<◌, min, ◌≡◌, refl, ap, ◌∙◌, some, List, [],
  ◌∷◌, ◌++◌, append_assoc, arith, length, drop, get_or, All, length-append, length-drop,
}
use cwsd.RemoteKey.Protocol.{
  Edge, Packet, magic, version, max_packet_bytes, max_edges, header_bytes, edge_bytes, sent_edges,
  put_u16, put_u64, get_u16, get_u64, encode_edge, encode_edges, encode, decode_edges, decode,
}
use cwsd.RemoteKey.Protocol.Integers.{get_u64-put_u64}

-- The members fit their C++ types.
pub record EdgeIsValid (e : Edge) : Type 0 where
  pub ts_fits : e.ts_us < 2 ^ 64
  pub state_fits : e.state < 2 ^ 8

pub record PacketIsValid (p : Packet) : Type 0 where
  pub session_fits : p.session_id < 2 ^ 16
  pub flags_fit : p.flags < 2 ^ 8
  pub edges_fit : All EdgeIsValid p.edges

-- The edges that `encode` sends: the last 32.
abbrev pub latest : Packet → List Edge
latest p = drop (length p.edges - sent_edges p) p.edges

length-latest : (p : Packet) → length (latest p) ≡ sent_edges p
length-latest p = ground (arith, length-drop (length p.edges - sent_edges p) p.edges)

All-drop {ℓ κ} : {A : Type ℓ} (P : A → Type κ) (n : ℕ) (xs : List A) → All P xs → All P (drop n xs)
All-drop P zero xs h = h
All-drop P (suc n) [] h = tt
All-drop P (suc n) (x ∷ xs) h = All-drop P n xs h.1

length-encode_edges : (es : List Edge) → length (encode_edges es) ≡ edge_bytes * length es
unfolding encode_edges encode_edge put_u64
length-encode_edges [] = omega arith
length-encode_edges (e ∷ es) = omega (arith, length-encode_edges es)

decode_edge-encode_edge :
    (e : Edge) (rest : List ℕ)
    → EdgeIsValid e
    → (get_u64 (encode_edge e ++ rest) ≡ e.ts_us)
      × (get_or (encode_edge e ++ rest) 8 0 ≡ e.state)
      × (drop edge_bytes (encode_edge e ++ rest) ≡ rest)
unfolding encode_edge
decode_edge-encode_edge e rest v = (
  rw append_assoc (get_u64-put_u64 e.ts_us (e.state ∷ rest) v.ts_fits),
  (unfold put_u64 in refl),
  (unfold put_u64 in refl),
)

decode_edges-encode_edges :
    (es : List Edge) (rest : List ℕ)
    → All EdgeIsValid es
    → decode_edges (length es) (encode_edges es ++ rest) ≡ es
unfolding decode_edges encode_edges
decode_edges-encode_edges [] rest h = refl
decode_edges-encode_edges (e ∷ es) rest h =
    let parts = decode_edge-encode_edge e (encode_edges es ++ rest) h.0 in
    rw (append_assoc, parts.0, parts.1, parts.2, decode_edges-encode_edges es rest h.1)

-- A header over edges that are few enough to count in a byte.
decode-header :
    (flags hi lo n : ℕ) (es : List Edge) (rest : List ℕ)
    → n ≡ length es
    → All EdgeIsValid es
    → decode (magic ∷ version ∷ flags ∷ hi ∷ lo ∷ n ∷ encode_edges es ++ rest)
      ≡ some (record { session_id = hi * 2 ^ 8 % 2 ^ 16 + lo; flags = flags; edges = es })
unfolding decode get_u16
decode-header flags hi lo n es rest count v = ground (
  arith,
  length-append (encode_edges es) rest,
  length-encode_edges es,
  rw (← count) at (decode_edges-encode_edges es rest v),
)

length-encode :
    (p : Packet)
    → (length (encode p) ≡ header_bytes + edge_bytes * min (length p.edges) max_edges)
      × (length (encode p) ≤ max_packet_bytes)
unfolding encode put_u16
length-encode p = ground (arith, length-encode_edges (latest p), length-latest p)

-- Decoding the bytes that `encode` makes of a packet whose members fit their types, whatever
-- stands behind them, gives back its session, its flags and its edges, or the last 32 of them if
-- there are more; the packet alone fits the receive buffer.
pub decode-encode :
    (p : Packet) (rest : List ℕ)
    → PacketIsValid p
    → (decode (encode p ++ rest) ≡ some (record p { edges = latest p }))
      × (length (encode p) ≤ max_packet_bytes)
unfolding encode put_u16
decode-encode p rest v = (
  decode-header p.flags (p.session_id / 2 ^ 8 % 2 ^ 8) (p.session_id % 2 ^ 8) (sent_edges p % 2 ^ 8)
        (latest p) rest (ground (arith, length-latest p))
        (All-drop EdgeIsValid _ p.edges v.edges_fit)
      ∙ ap (λ (s : ℕ). some (record { session_id = s; flags = p.flags; edges = latest p }))
          (omega arith),
  (length-encode p).1,
)
