-- ===== src/Buffer/Tests.antt =====
-- Buffers and streams at concrete items.
use cwsd.Shared.{ℕ, ◌≡◌, List, [], ◌∷◌, arith}
use cwsd.Buffer.{CircularBuffer, create, size}
use cwsd.Buffer.Queue
use cwsd.Buffer.Queue.{puts, gets, peeks, resets, sizes, Call, item, number, done}
use cwsd.Buffer.Inv.{create-IsValid}
use cwsd.Buffer.Session.{run, run_refines}

-- Two places.
abbrev two : CircularBuffer ℕ
two = create (0 ∷ 0 ∷ []) 2

-- Three items, the first of which is lost, and what is left of them.
abbrev calls : List (Call ℕ)
calls = puts 7 ∷ puts 8 ∷ puts 9 ∷ sizes ∷ gets ∷ peeks ∷ gets ∷ gets ∷ resets ∷ sizes ∷ []

run_refines_example :
    run 0 two calls
    ≡ done ∷ done ∷ done ∷ number 2 ∷ item 8 ∷ item 9 ∷ item 9 ∷ item 0 ∷ done ∷ number 0 ∷ []
unfolding create Queue.run Queue.push Queue.pop Queue.front size
run_refines_example =
    run_refines 0 calls (create-IsValid (0 ∷ 0 ∷ []) 2 (omega arith) (omega arith) (omega arith))
