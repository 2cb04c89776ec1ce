-- ===== src/Buffer/Queue.antt =====
-- What a buffer of a fixed capacity promises: a queue, oldest item first, that drops the oldest.
use cwsd.Shared.{ℕ, List, [], ◌∷◌, ◌++◌, length, drop, ltb, if◌then◌else◌}

module _ {ℓ} {A : Type ℓ} where
  -- A new item goes to the end; a queue that holds `cap` items drops its first.
  unfoldable pub push : ℕ → List A → A → List A
  push cap q x = (if ltb (length q) cap then q else drop 1 q) ++ x ∷ []

  -- The first item and the rest; of an empty queue the default.
  unfoldable pub pop : List A → A → A × List A
  pop [] default = (default, [])
  pop (x ∷ q) default = (x, q)

  unfoldable pub front : List A → A → A
  front [] default = default
  front (x ∷ q) default = x

-- The calls of a client, and what it sees of each: the item that `get` and `peek` return, the
-- answers of `size` and `empty`.
pub data Call {ℓ} (A : Type ℓ) : Type ℓ where
  puts : A → Call A
  gets peeks resets sizes : Call A

pub data Reply {ℓ} (A : Type ℓ) : Type ℓ where
  done : Reply A
  item : A → Reply A
  number : ℕ → Reply A

module _ {ℓ} {A : Type ℓ} (cap : ℕ) (default : A) where
  unfoldable pub run : List A → List (Call A) → List (Reply A)
  run q [] = []
  run q (puts x ∷ cs) = done ∷ run (push cap q x) cs
  run q (gets ∷ cs) = let (x, q') = pop q default in item x ∷ run q' cs
  run q (peeks ∷ cs) = item (front q default) ∷ run q cs
  run q (resets ∷ cs) = done ∷ run [] cs
  run q (sizes ∷ cs) = number (length q) ∷ run q cs
