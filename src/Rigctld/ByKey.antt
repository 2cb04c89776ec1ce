-- ===== src/Rigctld/ByKey.antt =====
-- src/rigctld_server.cpp, `read_from_client` on the map of the clients: the client that is read is a
-- reference into it, and each answer goes to the client of a descriptor.
pub mod Same
use cwsd.Shared.{
  ℕ, zero, suc, Bool, true, false, Option, none, some, List, [], ◌∷◌, ◌++◌, length, codes,
  if◌then◌else◌,
}
use cwsd.Strings.{c_string}
use cwsd.Rigctld.Hamlib.{Hamlib, Answers, RigCall}
use cwsd.Rigctld.Interpret.{Outcome, answered, quits, throws, undefined, interpret_command}
use cwsd.Rigctld.Client.{Received, bytes, failed, end_of_file, Written, split_line, flushed}
use cwsd.Rigctld.Clients.{Clients, value_at, subscript, assign}

-- `clients[fd].write_buffer.append(text)`
unfoldable pub append_to : List ℕ → ℕ → Clients → Clients
append_to text fd cs =
    let c = value_at fd (subscript fd cs) in
    assign fd (record c { write_buffer = c.write_buffer ++ text }) (subscript fd cs)

-- `send_response_to_client`
unfoldable pub send_response_to_client : List ℕ → ℕ → Clients → Clients
unfolding append_to
send_response_to_client response fd cs = append_to (b'\n' ∷ []) fd (append_to response fd cs)

unfoldable pub send_all : List (List ℕ) → ℕ → Clients → Clients
unfolding send_response_to_client
send_all [] fd cs = cs
send_all (r ∷ rs) fd cs = send_all rs fd (send_response_to_client r fd cs)

-- `client.read_buffer = text` through the reference to the client of a key.
abbrev pub set_read_buffer : List ℕ → ℕ → Clients → Clients
set_read_buffer text key cs = assign key (record (value_at key cs) { read_buffer = text }) cs

-- `write_from_client(clients[fd])`
unfoldable pub flush_at : Written → ℕ → Clients → Clients
unfolding flushed
flush_at flush fd cs = assign fd (flushed flush (value_at fd (subscript fd cs))) (subscript fd cs)

module _ (h : Hamlib) where
  -- The map and the calls of the rig so far.
  pub record Table : Type 0 where
    pub clients : Clients
    pub calls : List (RigCall h)

  -- What is left of it, and whether the client is kept; `none` is undefined, or out of fuel.
  abbrev pub Left : Type 0
  Left = Option (Bool × Table)

  abbrev pub while_true : Left → (Table → Left) → Left
  while_true none next = none
  while_true (some (true, t)) next = next t
  while_true (some (false, t)) next = some (false, t)

  module _ (flush : Written) (key : ℕ) where
    -- One turn of the loop over the lines: the answers go to the descriptor that the client has.
    unfoldable pub answer_line : Table → List ℕ → Outcome h → Left
    unfolding send_all send_response_to_client flush_at
    answer_line t rest (answered calls responses) = some (
      true,
      record {
        clients =
            set_read_buffer rest key (send_all responses (value_at key t.clients).fd t.clients);
        calls = t.calls ++ calls;
      },
    )
    answer_line t rest throws = some (
      true,
      record t {
        clients =
            set_read_buffer rest key
              (send_response_to_client (codes "RPRT -1") (value_at key t.clients).fd t.clients);
      },
    )
    answer_line t rest quits = some (
      false,
      record t {
        clients =
            flush_at flush (value_at key t.clients).fd
              (send_response_to_client (codes "RPRT 0") (value_at key t.clients).fd t.clients);
      },
    )
    answer_line t rest undefined = none

    module _ (rig_model : ℕ) (rig : List (RigCall h) → Answers h) where
      -- The loop over the lines in the read buffer of the client.
      unfoldable pub answer_lines : ℕ → Table → Left
      unfolding split_line answer_line interpret_command
      answer_lines zero t = none
      answer_lines (suc fuel) t = elim (split_line (value_at key t.clients).read_buffer) [
        | none ↦ some (true, t)
        | some (line, rest) ↦
            while_true (answer_line t rest (interpret_command h rig_model (rig t.calls) line))
              (answer_lines fuel)
      ]

      -- `read_from_client` of the client of the key.
      unfoldable pub read_at : Bool → Received → Table → Left
      unfolding answer_lines
      read_at rig_disconnected failed t = some (false, t)
      read_at rig_disconnected end_of_file t = some (false, t)
      read_at rig_disconnected (bytes msg) t =
          let text = (value_at key t.clients).read_buffer ++ c_string msg in
          let t' = record t { clients = set_read_buffer text key t.clients } in
          if rig_disconnected then some (true, t') else answer_lines (suc (length text)) t'
