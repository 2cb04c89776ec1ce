-- ===== src/Rigctld/Client.antt =====
-- src/rigctld_server.cpp: what a client sent and is to be sent. The rig is a function of the calls
-- made so far to its answers.
pub mod Fd
pub mod Lines
pub mod Chunks
use cwsd.Shared.{
  ℕ, zero, suc, Bool, true, false, Option, none, some, List, [], ◌∷◌, ◌++◌, length, drop, ◌==◌,
  codes, if◌then◌else◌,
}
use cwsd.Strings.{c_string}
use cwsd.Rigctld.Hamlib.{Hamlib, Answers, RigCall}
use cwsd.Rigctld.Interpret.{Outcome, answered, quits, throws, undefined, interpret_command}

-- `rigctld_client`, less `is_running`, which is never read.
pub record RigctldClient : Type 0 where
  pub fd : ℕ
  pub read_buffer : List ℕ
  pub write_buffer : List ℕ

-- `send_response_to_client` on the record at hand, where the code looks the client up by its
-- descriptor; ByKey does that.
unfoldable pub append_response : List ℕ → RigctldClient → RigctldClient
append_response response client = record client {
  write_buffer = client.write_buffer ++ response ++ b'\n' ∷ [];
}

unfoldable pub send_responses : List (List ℕ) → RigctldClient → RigctldClient
unfolding append_response
send_responses [] client = client
send_responses (r ∷ rs) client = send_responses rs (append_response r client)

-- The text before the first line feed and the text behind it, `none` without a line feed.
unfoldable pub split_line : List ℕ → Option (List ℕ × List ℕ)
split_line [] = none
split_line (c ∷ cs) =
    if c == b'\n'
    then some ([], cs)
    else elim (split_line cs) [ none ↦ none | some (line, rest) ↦ some (c ∷ line, rest) ]

-- What `recv` gives: an error, the end of the stream, or at most 127 bytes.
pub data Received : Type 0 where
  failed end_of_file : Received
  bytes : List ℕ → Received

-- What `write` gives.
pub data Written : Type 0 where
  refused : Written
  written : ℕ → Written

-- `write_from_client`; `none` is `false`.
unfoldable pub write_from_client : Written → RigctldClient → Option RigctldClient
write_from_client w client = elim client.write_buffer [
  | [] ↦ some client
  | c ∷ cs ↦ elim w [
    | refused ↦ none
    | written n ↦ some (record client { write_buffer = drop n client.write_buffer })
  ]
]

-- The client when `write_from_client` has been called, whatever it returns.
unfoldable pub flushed : Written → RigctldClient → RigctldClient
unfolding write_from_client
flushed w client = elim (write_from_client w client) [
  | none ↦ client
  | some written_to ↦ written_to
]

module _ (h : Hamlib) where
  -- A client and the calls of the rig so far, the last one at the end.
  pub record Serving : Type 0 where
    pub client : RigctldClient
    pub calls : List (RigCall h)

  -- Whether the client is kept (`true`) or is to be closed (`false`); `broken` is behaviour that the
  -- language does not define.
  pub data Progress : Type 0 where
    kept closed : Serving → Progress
    broken out_of_fuel : Progress

  abbrev pub while_kept : Progress → (Serving → Progress) → Progress
  while_kept (kept s) next = next s
  while_kept (closed s) next = closed s
  while_kept broken next = broken
  while_kept out_of_fuel next = out_of_fuel

  -- One turn of the loop over the lines. The line is erased behind its answer, except behind the
  -- command to quit, whose answer is written at once; `flush` is what that `write` gives.
  unfoldable pub after_line : Written → Serving → List ℕ → Outcome h → Progress
  unfolding send_responses append_response flushed
  after_line flush s rest (answered calls responses) = kept (record {
    client = record (send_responses responses s.client) { read_buffer = rest };
    calls = s.calls ++ calls;
  })
  after_line flush s rest throws = kept (record s {
    client = record (append_response (codes "RPRT -1") s.client) { read_buffer = rest };
  })
  after_line flush s rest quits =
      closed (record s { client = flushed flush (append_response (codes "RPRT 0") s.client) })
  after_line flush s rest undefined = broken

  abbrev pub appended : List ℕ → Serving → Serving
  appended text s = record s {
    client = record s.client { read_buffer = s.client.read_buffer ++ text };
  }

  module _ (rig_model : ℕ) (rig : List (RigCall h) → Answers h) (flush : Written) where
    -- The loop over the lines in the read buffer.
    unfoldable pub interpret_lines : ℕ → Serving → Progress
    unfolding split_line after_line interpret_command
    interpret_lines zero s = out_of_fuel
    interpret_lines (suc fuel) s = elim (split_line s.client.read_buffer) [
      | none ↦ kept s
      | some (line, rest) ↦
          while_kept (after_line flush s rest (interpret_command h rig_model (rig s.calls) line))
            (interpret_lines fuel)
    ]

    -- `read_from_client`; each line takes a byte of the read buffer at least, and a turn.
    unfoldable pub read_from_client : Bool → Received → Serving → Progress
    unfolding interpret_lines
    read_from_client rig_disconnected failed s = closed s
    read_from_client rig_disconnected end_of_file s = closed s
    read_from_client rig_disconnected (bytes msg) s =
        let s = appended (c_string msg) s in
        if rig_disconnected then kept s else interpret_lines (suc (length s.client.read_buffer)) s
