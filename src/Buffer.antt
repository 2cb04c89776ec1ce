-- ===== src/Buffer.antt =====
-- src/circular_buffer.h: `circular_buffer<T>`. An item's type and its default `T()` are parameters.
pub mod Queue
pub mod Inv
pub mod Refine
pub mod Session
pub mod Stream
mod Tests
use cwsd.Shared.{
  ℕ, ◌%◌, Bool, false, not, ◌&&◌, List, leb, ◌==◌, if◌then◌else◌, get_or, set, add_u64, sub_u64,
}

-- The members. `buf_` points to `max_size_` items.
pub record CircularBuffer {ℓ} (A : Type ℓ) : Type ℓ where
  pub buf : List A
  pub head : ℕ
  pub tail : ℕ
  pub max_size : ℕ
  pub full : Bool

module _ {ℓ} {A : Type ℓ} where
  -- The constructor; `storage` is what `new T[size]` returns.
  unfoldable pub create : List A → ℕ → CircularBuffer A
  create storage size = record { buf = storage; head = 0; tail = 0; max_size = size; full = false }

  -- `put`: a full buffer loses its oldest item.
  unfoldable pub put : CircularBuffer A → A → CircularBuffer A
  put b item =
      let tail' = if b.full then add_u64 b.tail 1 % b.max_size else b.tail in
      let head' = add_u64 b.head 1 % b.max_size in
      record b { buf = set b.buf b.head item; tail = tail'; head = head'; full = head' == tail' }

  -- `empty`
  unfoldable pub empty : CircularBuffer A → Bool
  empty b = not b.full && b.head == b.tail

  -- `size`: the distance from tail to head, going round.
  unfoldable pub size : CircularBuffer A → ℕ
  size b =
      if b.full
      then b.max_size
      else if leb b.tail b.head
      then sub_u64 b.head b.tail
      else sub_u64 (add_u64 b.max_size b.head) b.tail

  -- `reset`: head moves back to tail.
  unfoldable pub reset : CircularBuffer A → CircularBuffer A
  reset b = record b { head = b.tail; full = false }

  -- `get`: on an empty buffer `T()`, and nothing changes.
  unfoldable pub get : CircularBuffer A → A → A × CircularBuffer A
  unfolding empty
  get b default = if empty b then (default, b) else (
    get_or b.buf b.tail default,
    record b { full = false; tail = add_u64 b.tail 1 % b.max_size },
  )

  -- `peek`
  unfoldable pub peek : CircularBuffer A → A → A
  unfolding empty
  peek b default = if empty b then default else get_or b.buf b.tail default
