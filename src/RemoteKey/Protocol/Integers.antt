-- ===== src/RemoteKey/Protocol/Integers.antt =====
-- The big-endian integers of src/remote_key_protocol.h.
use cwsd.Shared.{ℕ, ◌^◌, ◌<◌, ◌≡◌, List, ◌++◌, arith}
use cwsd.RemoteKey.Protocol.{put_u16, put_u64, get_u16, get_u64}

pub get_u16-put_u16 : (v : ℕ) (rest : List ℕ) → v < 2 ^ 16 → get_u16 (put_u16 v ++ rest) ≡ v
unfolding get_u16 put_u16
get_u16-put_u16 v rest h = omega arith

pub get_u64-put_u64 : (v : ℕ) (rest : List ℕ) → v < 2 ^ 64 → get_u64 (put_u64 v ++ rest) ≡ v
unfolding get_u64 put_u64
get_u64-put_u64 v rest h = omega arith
