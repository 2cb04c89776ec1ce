-- ===== src/RemoteKey.antt =====
-- Remote paddle keying: the wire format (src/remote_key_protocol.h) and the server that replays it
-- (src/remote_key_server.h, src/remote_key_server.cpp).
pub mod Protocol
pub mod Receive
pub mod Replay
mod Tests
