-- ===== src/RemoteKey/Protocol/Bounds.antt =====
-- Which datagrams `decode` accepts, and that what it accepts is a packet of the wire format.
use cwsd.Shared.{
  ℕ, zero, suc, ◌+◌, ◌*◌, ◌≤◌, ◌≡◌, ◌↔◌, ◌≢◌, refl, ap, none, some, List, arith, length, drop,
  get_or,
}
use cwsd.RemoteKey.Protocol.{Packet, magic, version, header_bytes, edge_bytes, decode_edges, decode}

length-decode_edges : (n : ℕ) (e : List ℕ) → length (decode_edges n e) ≡ n
unfolding decode_edges
length-decode_edges zero e = refl
length-decode_edges (suc n) e = ap suc (length-decode_edges n (drop edge_bytes e))

-- `decode` accepts a datagram exactly when it starts with the magic number and the version and is
-- at least as long as its header and the number of edges there say; a result has that many edges.
pub decode_accepts :
    (buf : List ℕ)
    → ((decode buf ≢ none)
        ↔ (header_bytes ≤ length buf)
          × (get_or buf 0 0 ≡ magic)
          × (get_or buf 1 0 ≡ version)
          × (header_bytes + edge_bytes * get_or buf 5 0 ≤ length buf))
      × ((p : Packet) → decode buf ≡ some p → length p.edges ≡ get_or buf 5 0)
unfolding decode
decode_accepts buf = (
  ground arith,
  λ p h. ground (arith, length-decode_edges (get_or buf 5 0) (drop header_bytes buf)),
)
