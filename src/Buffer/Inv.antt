-- ===== src/Buffer/Inv.antt =====
-- The representation invariant of `circular_buffer<T>`, and that every operation keeps it.
use native.Mathlib.Nat.{mod-eq_of_lt, mod_self}
use cwsd.Shared.{
  add_u64, ltb, if◌then◌else◌, ℕ, ◌+◌, ◌-◌, ◌%◌, ◌^◌, ◌≤◌, ◌<◌, min, ◌≡◌, ◌↔◌, true, List, arith,
  length, length-set,
}
use cwsd.Buffer.{CircularBuffer, create, put, get, reset, empty, size}

pub record IsValid {ℓ} {A : Type ℓ} (b : CircularBuffer A) : Type 0 where
  pub storage : b.max_size ≤ length b.buf
  pub some_room : 0 < b.max_size
  pub addressable : b.max_size ≤ 2 ^ 63
  pub head_in : b.head < b.max_size
  pub tail_in : b.tail < b.max_size
  pub full_meets : b.full ≡ true → b.head ≡ b.tail

-- The place after `h`: no word wraps, and the last place is followed by the first.
pub next_place :
    (n h : ℕ) → h < n → n ≤ 2 ^ 63 → add_u64 h 1 % n ≡ (if ltb (h + 1) n then h + 1 else 0)
next_place n h p q = grind (arith, mod-eq_of_lt, mod_self)

module _ {ℓ} {A : Type ℓ} where
  pub create-IsValid :
      (storage : List A) (n : ℕ)
      → n ≤ length storage
      → 0 < n
      → n ≤ 2 ^ 63
      → IsValid (create storage n)
  unfolding create
  create-IsValid storage n h p q = ground arith

  pub put-IsValid : {b : CircularBuffer A} (x : A) → IsValid b → IsValid (put b x)
  unfolding put
  put-IsValid {b} x v = ground (arith, length-set b.buf b.head x)

  pub get-IsValid : {b : CircularBuffer A} (d : A) → IsValid b → IsValid (get b d).1
  unfolding get
  get-IsValid {b} d v = ground arith

  pub reset-IsValid : {b : CircularBuffer A} → IsValid b → IsValid (reset b)
  unfolding reset
  reset-IsValid v = ground arith

  -- A valid buffer's `size` is at most its capacity, and leads from tail to head.
  pub size_bounds :
      {b : CircularBuffer A}
      → IsValid b
      → (size b ≤ b.max_size) × (b.head ≡ (b.tail + size b) % b.max_size)
  unfolding size
  size_bounds {b} v = grind arith

  -- A valid buffer is marked full exactly when it holds `max_size_` items.
  pub full_iff : {b : CircularBuffer A} → IsValid b → (b.full ≡ true) ↔ (size b ≡ b.max_size)
  unfolding size
  full_iff {b} v = ground arith

  pub empty_iff : {b : CircularBuffer A} → IsValid b → (empty b ≡ true) ↔ (size b ≡ 0)
  unfolding size empty
  empty_iff {b} v = ground arith

  -- `put` makes the buffer one longer, up to its capacity.
  pub size-put :
      {b : CircularBuffer A} (x : A) → IsValid b → size (put b x) ≡ min (size b + 1) b.max_size
  unfolding size put
  size-put {b} x v = ground (arith, next_place b.max_size b.head, next_place b.max_size b.tail)

  -- `get` makes it one shorter, down to nothing.
  pub size-get : {b : CircularBuffer A} (d : A) → IsValid b → size (get b d).1 ≡ size b - 1
  unfolding size get
  size-get {b} d v = ground (arith, next_place b.max_size b.tail)

  pub size-reset : (b : CircularBuffer A) → IsValid b → size (reset b) ≡ 0
  unfolding size reset
  size-reset b v = ground arith
