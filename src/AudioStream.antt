-- ===== src/AudioStream.antt =====
-- src/audio_stream_server.cpp: the subscribers and the datagrams to them. ALSA and Opus are
-- libraries; what they return in a turn of `work` is an argument.
pub mod Subscribers
pub mod Numbers
mod Tests
use cwsd.Shared.{
  ℕ, ◌+◌, ◌*◌, ◌/◌, ◌%◌, ◌^◌, bit_or, Bool, true, false, not, ◌||◌, Option, none, some, List, [],
  ◌∷◌, ◌++◌, length, ltb, leb, ◌==◌, add_u32, sub_u32, if◌then◌else◌,
}
use mathlib.Core.List.{map}

-- What is used of a `sockaddr_in`.
pub record Address : Type 0 where
  pub s_addr : ℕ
  pub sin_port : ℕ

pub record Client : Type 0 where
  pub addr : Address
  pub last_seen_ms : ℕ

-- `clients`; the order of its entries is not specified.
abbrev pub Clients : Type 0
Clients = List (ℕ × Client)

-- A datagram's sender, and what `ellapsed_ms` gives when it has been read.
pub record Keepalive : Type 0 where
  pub from : Address
  pub now : ℕ

unfoldable pub put_be32 : ℕ → List ℕ
put_be32 v = v / 2 ^ 24 % 2 ^ 8 ∷ v / 2 ^ 16 % 2 ^ 8 ∷ v / 2 ^ 8 % 2 ^ 8 ∷ v % 2 ^ 8 ∷ []

unfoldable pub client_key : Address → ℕ
client_key a = bit_or (a.s_addr * 2 ^ 16 % 2 ^ 64) a.sin_port

-- A sender is inserted under its key, or its time is renewed.
unfoldable pub subscribe : ℕ → Address → ℕ → Clients → Clients
subscribe key from now [] = (key, record { addr = from; last_seen_ms = now }) ∷ []
subscribe key from now ((k, c) ∷ cs) =
    if key == k
    then (k, record c { last_seen_ms = now }) ∷ cs
    else (k, c) ∷ subscribe key from now cs

-- The loop over the datagrams that wait.
unfoldable pub drain : List Keepalive → Clients → Clients
unfolding subscribe client_key
drain [] cs = cs
drain (d ∷ ds) cs = drain ds (subscribe (client_key d.from) d.from d.now cs)

-- The loop over the clients; `timeout` is `client_timeout_ms` as a `uint32_t`.
unfoldable pub expire : ℕ → ℕ → Clients → Clients
expire timeout now [] = []
expire timeout now ((k, c) ∷ cs) =
    let rest = expire timeout now cs in
    if leb timeout (sub_u32 now c.last_seen_ms) then rest else (k, c) ∷ rest

unfoldable pub poll_clients : ℕ → List Keepalive → ℕ → Clients → Clients
unfolding drain expire
poll_clients timeout datagrams now cs = expire timeout now (drain datagrams cs)

abbrev pub header_bytes : ℕ
header_bytes = 4

abbrev pub max_packet : ℕ
max_packet = 1500

-- A `sendto`.
pub record Sent : Type 0 where
  pub to : Address
  pub packet : List ℕ

-- What is left of the server's members for streaming.
pub record AudioStreamServer : Type 0 where
  pub clients : Clients
  pub sequence : ℕ
  pub capturing : Bool
  pub capture_was_open : Bool

unfoldable pub broadcast : List ℕ → AudioStreamServer → AudioStreamServer × List Sent
unfolding put_be32
broadcast payload s =
    let no_clients : Bool = elim s.clients [ [] ↦ true | c ∷ cs ↦ false ] in
    if no_clients || length payload == 0
    then (s, [])
    else if ltb max_packet (header_bytes + length payload)
    then (s, [])
    else (
      record s { sequence = add_u32 s.sequence 1 },
      map (λ c. record { to = c.1.addr; packet = put_be32 s.sequence ++ payload }) s.clients,
    )

-- What `snd_pcm_readi` gives: an overrun (-EPIPE), another error, or frames, and then what
-- `opus_encode` makes of them, `none` for an error.
pub data Captured : Type 0 where
  overrun failed : Captured
  frames : Option (List ℕ) → Captured

-- What a turn of `work` reads: whether `open_capture` succeeds if it is called, the datagrams that
-- wait, the time behind them, and what is captured.
pub record Reading : Type 0 where
  pub opens : Bool
  pub datagrams : List Keepalive
  pub now : ℕ
  pub captured : Captured

abbrev pub polled : ℕ → Reading → AudioStreamServer → AudioStreamServer
unfolding poll_clients
polled timeout r s = record s { clients = poll_clients timeout r.datagrams r.now s.clients }

-- `work` from `snd_pcm_readi` on.
unfoldable pub stream : ℕ → Reading → AudioStreamServer → AudioStreamServer × List Sent
unfolding polled broadcast
stream timeout r s = elim r.captured [
  | overrun ↦ (s, [])
  | failed ↦ (record s { capturing = false }, [])
  | frames encoded ↦ elim encoded [
    | none ↦ (polled timeout r s, [])
    | some payload ↦ broadcast payload (polled timeout r s)
  ]
]

-- A turn of the loop in `work`.
unfoldable pub work_turn : ℕ → Reading → AudioStreamServer → AudioStreamServer × List Sent
unfolding polled stream
work_turn timeout r s =
    if s.capturing
    then stream timeout r s
    else if r.opens
    then stream timeout r (record s { capturing = true; capture_was_open = true })
    else (polled timeout r (record s { capture_was_open = false }), [])

-- `work` for as long as it runs, with all that it sends.
unfoldable pub work : ℕ → List Reading → AudioStreamServer → AudioStreamServer × List Sent
unfolding work_turn
work timeout [] s = (s, [])
work timeout (r ∷ rs) s =
    let (s, sent) = work_turn timeout r s in
    let (s, later) = work timeout rs s in (s, sent ++ later)
