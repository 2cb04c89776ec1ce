-- ===== src/Buffer/Session.antt =====
-- Sequences of calls on a `circular_buffer<T>`.
use cwsd.Shared.{◌≡◌, refl, List, [], ◌∷◌, arith}
use cwsd.Buffer.{CircularBuffer, put, get, peek, reset, size}
use cwsd.Buffer.Queue
use cwsd.Buffer.Queue.{Call, puts, gets, peeks, resets, sizes, Reply, done, item, number}
use cwsd.Buffer.Inv.{IsValid, put-IsValid, get-IsValid, reset-IsValid}
use cwsd.Buffer.Refine.{
  contents, length-contents, put_refines, get_refines, peek_refines, reset_refines,
}

module _ {A : Type 0} (d : A) where
  unfoldable pub run : CircularBuffer A → List (Call A) → List (Reply A)
  run b [] = []
  run b (puts x ∷ cs) = done ∷ run (put b x) cs
  run b (gets ∷ cs) = let (x, b') = get b d in item x ∷ run b' cs
  run b (peeks ∷ cs) = item (peek b d) ∷ run b cs
  run b (resets ∷ cs) = done ∷ run (reset b) cs
  run b (sizes ∷ cs) = number (size b) ∷ run b cs

  max_size-put : (b : CircularBuffer A) (x : A) → (put b x).max_size ≡ b.max_size
  unfolding put
  max_size-put b x = refl

  max_size-get : (b : CircularBuffer A) → (get b d).1.max_size ≡ b.max_size
  unfolding get
  max_size-get b = ground arith

  max_size-reset : (b : CircularBuffer A) → (reset b).max_size ≡ b.max_size
  unfolding reset
  max_size-reset b = refl

  -- No sequence of calls of `put`, `get`, `peek`, `reset` and `size` tells a valid buffer from the
  -- queue of its contents that drops its oldest item when it is full.
  pub run_refines :
      (cs : List (Call A)) {b : CircularBuffer A}
      → IsValid b
      → run b cs ≡ Queue.run b.max_size d (contents d b) cs
  unfolding run Queue.run
  run_refines [] v = refl
  run_refines (puts x ∷ cs) {b} v =
      rw (run_refines cs (put-IsValid x v), ← put_refines d x v, max_size-put b x)
  run_refines (gets ∷ cs) {b} v =
      rw (run_refines cs (get-IsValid d v), ← get_refines d v, max_size-get b)
  run_refines (peeks ∷ cs) v = rw (run_refines cs v, peek_refines d v)
  run_refines (resets ∷ cs) {b} v =
      rw (run_refines cs (reset-IsValid v), reset_refines d v, max_size-reset b)
  run_refines (sizes ∷ cs) {b} v = rw (run_refines cs v, length-contents d b)
