-- ===== src/Buffer/Stream.antt =====
-- src/circular_buffer.h: `buffered_stream<T>`, which gives items only once enough have come in.
use cwsd.Shared.{
  ℕ, ◌+◌, ◌<◌, min, ◌≡◌, ◌↔◌, ◌⊎◌, Bool, true, false, not, ◌&&◌, List, ltb, if◌then◌else◌, arith,
}
use cwsd.Buffer.{CircularBuffer, create, put, get, empty, size}
use cwsd.Buffer.Inv.{IsValid, put-IsValid, get-IsValid, size-put, size-get, empty_iff}

pub record BufferedStream {ℓ} (A : Type ℓ) : Type ℓ where
  pub stream : CircularBuffer A
  pub read_threshold : ℕ
  pub read_threshold_reached : Bool

module _ {ℓ} {A : Type ℓ} where
  -- The constructor
  unfoldable pub open_stream : List A → ℕ → ℕ → BufferedStream A
  open_stream storage capacity threshold = record {
    stream = create storage capacity;
    read_threshold = threshold;
    read_threshold_reached = false;
  }

  unfoldable pub put_stream : BufferedStream A → A → BufferedStream A
  put_stream s x =
      let b = put s.stream x in
      record s {
        stream = b;
        read_threshold_reached =
            if not s.read_threshold_reached && ltb s.read_threshold (size b)
            then true
            else s.read_threshold_reached;
      }

  unfoldable pub get_stream : BufferedStream A → A → A × BufferedStream A
  get_stream s d =
      let (x, b) = get s.stream d in
      (
        x,
        record s {
          stream = b;
          read_threshold_reached = if empty b then false else s.read_threshold_reached;
        },
      )

  unfoldable pub can_read : BufferedStream A → Bool
  can_read s = s.read_threshold_reached && not (empty s.stream)

  -- The buffer is valid, and once the threshold is reached there is something to read.
  pub record StreamIsValid (s : BufferedStream A) : Type 0 where
    pub inner : IsValid s.stream
    pub ready : s.read_threshold_reached ≡ true → 0 < size s.stream

  -- `put` keeps the stream valid.
  pub put_stream-StreamIsValid :
      {s : BufferedStream A} (x : A) → StreamIsValid s → StreamIsValid (put_stream s x)
  unfolding put_stream
  put_stream-StreamIsValid {s} x v = record {
    inner = put-IsValid x v.inner;
    ready = λ _. ground (arith, size-put x v.inner, v.inner.some_room);
  }

  -- `get` keeps the stream valid.
  pub get_stream-StreamIsValid :
      {s : BufferedStream A} (d : A) → StreamIsValid s → StreamIsValid (get_stream s d).1
  unfolding get_stream
  get_stream-StreamIsValid {s} d v =
      let valid = get-IsValid d v.inner in
      record { inner = valid; ready = λ on. ground (arith, empty_iff valid) }

  -- In a valid stream `can_read` says just whether the threshold was reached; a `put` sets it when
  -- more than the threshold are held and never clears it, and a `get` clears it exactly when it
  -- takes the last item.
  pub can_read_lem :
      {s : BufferedStream A} (x d : A)
      → StreamIsValid s
      → (can_read s ≡ s.read_threshold_reached)
        × ((can_read (put_stream s x) ≡ true) ↔ (
            (can_read s ≡ true) ⊎ (s.read_threshold < min (size s.stream + 1) s.stream.max_size)))
        × ((can_read (get_stream s d).1 ≡ true) ↔ ((can_read s ≡ true) × (1 < size s.stream)))
  unfolding can_read put_stream get_stream
  can_read_lem {s} x d v = ground (
    arith,
    empty_iff v.inner,
    empty_iff (put-IsValid x v.inner),
    empty_iff (get-IsValid d v.inner),
    size-put x v.inner,
    size-get d v.inner,
    v.inner.some_room,
  )
