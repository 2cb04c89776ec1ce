-- ===== src/Rigctld/Clients.antt =====
-- src/rigctld_server.h, `clients`: a `std::map` from descriptors to clients, as the list of its
-- entries in the order of their keys.
pub mod Keys
pub mod Assign
use cwsd.Shared.{
  ℕ, Bool, true, false, ◌||◌, Option, none, some, List, [], ◌∷◌, ltb, ◌==◌, if◌then◌else◌,
}
use mathlib.Core.List.{map}
use cwsd.Rigctld.Client.{RigctldClient}

abbrev pub Clients : Type 0
Clients = List (ℕ × RigctldClient)

abbrev pub keys : Clients → List ℕ
keys cs = map (λ e. e.0) cs

-- `find(key) != end()`
abbrev pub has_key : ℕ → Clients → Bool
has_key k [] = false
has_key k ((j, c) ∷ cs) = k == j || has_key k cs

-- A client with its members zero and empty.
abbrev pub blank : ℕ → RigctldClient
blank fd = record { fd = fd; read_buffer = []; write_buffer = [] }

-- The client of a key, blank where the key is missing.
abbrev pub value_at : ℕ → Clients → RigctldClient
value_at k [] = blank 0
value_at k ((j, c) ∷ cs) = if k == j then c else value_at k cs

-- Behind the smaller keys.
unfoldable pub place : ℕ → RigctldClient → Clients → Clients
place k c [] = (k, c) ∷ []
place k c ((j, d) ∷ cs) = if ltb k j then (k, c) ∷ (j, d) ∷ cs else (j, d) ∷ place k c cs

-- `insert({key, client})`, which leaves an entry that is there.
unfoldable pub insert : ℕ → RigctldClient → Clients → Clients
unfolding place
insert k c cs = if has_key k cs then cs else place k c cs

-- The map behind `clients[key]`, which inserts a blank client under a missing key.
unfoldable pub subscript : ℕ → Clients → Clients
unfolding insert
subscript k cs = insert k (blank 0) cs

-- An assignment through a reference to the client of a key.
abbrev pub assign : ℕ → RigctldClient → Clients → Clients
assign k c [] = []
assign k c ((j, d) ∷ cs) = if k == j then (j, c) ∷ cs else (j, d) ∷ assign k c cs

-- `find` and `erase`; a missing key changes nothing.
unfoldable pub erase : ℕ → Clients → Clients
erase k [] = []
erase k ((j, d) ∷ cs) = if k == j then cs else (j, d) ∷ erase k cs
