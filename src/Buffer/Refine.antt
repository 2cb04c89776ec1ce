-- ===== src/Buffer/Refine.antt =====
-- A valid `circular_buffer<T>` behaves as the queue of the items that it holds.
use native.Mathlib.Nat.{
  mod-add-mod, mod-eq_of_lt, mod-eq-sub-mod, mod-lt, add-zero, mod-mod, add-mod_right,
}
use cwsd.Shared.{
  ℕ, zero, suc, ◌+◌, ◌-◌, ◌%◌, ◌≤◌, ◌<◌, ◌≡◌, refl, sym, ap, ap₂, ◌∙◌, ◌≢◌, true, List, [], ◌∷◌,
  ◌++◌, arith, length, set, get_or, get_or-set_self, get_or-set_ne, dec_lt, Bool-cases, inl, inr,
  ◌^◌, add_u64, drop, false,
}
use cwsd.Buffer.{CircularBuffer, put, get, peek, reset, empty, size}
use cwsd.Buffer.Queue
use cwsd.Buffer.Inv.{IsValid, size_bounds, size-put, size-get, size-reset, full_iff, empty_iff}

module _ {ℓ} {A : Type ℓ} where
  -- The `n` items from position `t` on; positions are reduced at the read.
  abbrev pub items : A → List A → ℕ → ℕ → ℕ → List A
  items d buf cap zero t = []
  items d buf cap (suc n) t = get_or buf (t % cap) d ∷ items d buf cap n (t + 1)

  -- The abstract view: what a buffer holds, oldest first. The default never shows in a valid one.
  abbrev pub contents : A → CircularBuffer A → List A
  contents d b = items d b.buf b.max_size (size b) b.tail

  length-items : (d : A) (buf : List A) (cap n t : ℕ) → length (items d buf cap n t) ≡ n
  length-items d buf cap zero t = refl
  length-items d buf cap (suc n) t = ap suc (length-items d buf cap n (t + 1))

  -- The contents are as many as `size` says.
  pub length-contents : (d : A) (b : CircularBuffer A) → length (contents d b) ≡ size b
  length-contents d b = length-items d b.buf b.max_size (size b) b.tail

  -- Positions that agree modulo the capacity hold the same items.
  items-congr :
      (d : A) (buf : List A) (cap n t u : ℕ)
      → t % cap ≡ u % cap
      → items d buf cap n t ≡ items d buf cap n u
  items-congr d buf cap zero t u e = refl
  items-congr d buf cap (suc n) t u e = ap₂ ◌∷◌ (ap (λ i. get_or buf i d) e) (
      items-congr d buf cap n (t + 1) (u + 1)
        (sym (mod-add-mod t cap 1) ∙ ap (λ i. (i + 1) % cap) e ∙ mod-add-mod u cap 1))

-- Two positions less than one round apart are different places.
place_ne : (cap t k : ℕ) → suc k < cap → (t + suc k) % cap ≢ t % cap
place_ne cap t k h same = elim (dec_lt (t % cap + suc k) cap) [
  | yes p ↦ omega (arith, mod-eq_of_lt p, mod-add-mod t cap (suc k))
  | no p ↦ omega (
    arith,
    mod-add-mod t cap (suc k),
    mod-eq-sub-mod {n = t % cap + suc k} {m = cap} (omega arith),
    mod-eq_of_lt {n = t % cap + suc k - cap} {m = cap} (omega (arith, mod-lt t {m = cap})),
  )
]

-- The increment of a place does not wrap round the word, and a place is reduced once.
same_place : (cap t : ℕ) → t < cap → cap ≤ 2 ^ 63 → add_u64 t 1 % cap % cap ≡ (t + 1) % cap
same_place cap t h p =
    mod-mod (add_u64 t 1) cap ∙ ap (λ (k : ℕ). k % cap) (mod-eq_of_lt {m = 2 ^ 64} (omega arith))

module _ {A : Type 0} where
  -- A write just past the last item appends it.
  items-set :
      (d x : A) (buf : List A) (cap n t i : ℕ)
      → cap ≤ length buf
      → n < cap
      → i ≡ (t + n) % cap
      → items d (set buf i x) cap (suc n) t ≡ items d buf cap n t ++ x ∷ []
  items-set d x buf cap zero t i hs hn e =
      rw (e, add-zero, get_or-set_self buf (t % cap) x d (omega (arith, mod-lt t {m = cap})))
  items-set d x buf cap (suc n) t i hs hn e =
      ap₂ ◌∷◌ (get_or-set_ne buf x d (λ q. place_ne cap t n hn (sym e ∙ q))) (
        items-set d x buf cap n (t + 1) i hs (omega arith)
          (e ∙ ap (λ (k : ℕ). k % cap) (omega arith)))

  items_split :
      (d : A) (buf : List A) (cap n t : ℕ)
      → n ≢ 0
      → items d buf cap n t ≡ get_or buf (t % cap) d ∷ items d buf cap (n - 1) (t + 1)
  items_split d buf cap zero t h = absurd (h refl)
  items_split d buf cap (suc n) t h =
      ap (λ k. get_or buf (t % cap) d ∷ items d buf cap k (t + 1)) (omega arith)

  -- A buffer with room gains the item at the end.
  put_with_room :
      (d : A) {b : CircularBuffer A} (x : A)
      → IsValid b
      → b.full ≡ false
      → contents d (put b x) ≡ contents d b ++ x ∷ []
  unfolding put
  put_with_room d {b} x v room =
      ap₂ (items d (set b.buf b.head x) b.max_size) one_more same_tail
      ∙ items-set d x b.buf b.max_size (size b) b.tail b.head v.storage space (size_bounds v).1
    where
      one_more : size (put b x) ≡ suc (size b)
      one_more = ground (arith, size-put x v, full_iff v, size_bounds v)

      same_tail : (put b x).tail ≡ b.tail
      same_tail = ground arith

      space : size b < b.max_size
      space = ground (arith, full_iff v, size_bounds v)

  -- A full buffer loses the oldest item.
  put_when_full :
      (d : A) {b : CircularBuffer A} (x : A)
      → IsValid b
      → b.full ≡ true
      → contents d (put b x) ≡ drop 1 (contents d b) ++ x ∷ []
  unfolding put
  put_when_full d {b} x v full =
      ap₂ (items d (set b.buf b.head x) b.max_size) as_many next_tail
      ∙ items-congr d (set b.buf b.head x) b.max_size (suc rest) _ (b.tail + 1)
          (same_place b.max_size b.tail v.tail_in v.addressable)
      ∙ items-set d x b.buf b.max_size rest (b.tail + 1) b.head v.storage (omega arith) round
      ∙ ap (λ q. q ++ x ∷ []) (sym dropped)
    where
      rest : ℕ
      rest = b.max_size - 1

      as_many : size (put b x) ≡ suc rest
      as_many = ground (arith, size-put x v, full_iff v)

      next_tail : (put b x).tail ≡ add_u64 b.tail 1 % b.max_size
      next_tail = ground arith

      round : b.head ≡ (b.tail + 1 + rest) % b.max_size
      round =
          v.full_meets full
          ∙ sym (mod-eq_of_lt v.tail_in)
          ∙ sym (add-mod_right b.tail b.max_size)
          ∙ ap (λ (t : ℕ). t % b.max_size) (omega arith)

      dropped : drop 1 (contents d b) ≡ items d b.buf b.max_size rest (b.tail + 1)
      dropped = ap (drop 1) (
          ap (λ n. items d b.buf b.max_size n b.tail) ((full_iff v).0 full)
          ∙ items_split d b.buf b.max_size b.max_size b.tail (omega arith))

  -- `put` leaves the queue with the new item at its end, without the oldest if the buffer was full.
  pub put_refines :
      (d : A) {b : CircularBuffer A} (x : A)
      → IsValid b
      → contents d (put b x) ≡ Queue.push b.max_size (contents d b) x
  unfolding Queue.push
  put_refines d {b} x v = ground (
    arith,
    length-contents d b,
    full_iff v,
    size_bounds v,
    put_with_room d x v,
    put_when_full d x v,
  )

  -- `get` returns the front of the queue and leaves the rest.
  pub get_refines :
      (d : A) {b : CircularBuffer A}
      → IsValid b
      → let (x, b') = get b d in (x, contents d b') ≡ Queue.pop (contents d b) d
  unfolding get Queue.pop
  get_refines d {b} v = elim (Bool-cases (empty b)) [
    | inl bare ↦ rw (bare, (empty_iff v).0 bare)
    | inr held ↦
        rw (held, items_split d b.buf b.max_size (size b) b.tail (ne held))
          (ap₂ {C = A × List A} (λ x q. (x, q))
            (ap (λ i. get_or b.buf i d) (sym (mod-eq_of_lt v.tail_in)))
            (ap (λ n. items d b.buf b.max_size n next) (shorter held)
              ∙ items-congr d b.buf b.max_size (size b - 1) next (b.tail + 1)
                  (same_place b.max_size b.tail v.tail_in v.addressable)))
  ]
    where
      next : ℕ
      next = add_u64 b.tail 1 % b.max_size

      ne : empty b ≡ false → size b ≢ 0
      ne held = ground (arith, empty_iff v)

      shorter : empty b ≡ false → size (record b { full = false; tail = next }) ≡ size b - 1
      shorter held = rw held at (size-get d v)

  -- `peek` returns the front of the queue.
  pub peek_refines :
      (d : A) {b : CircularBuffer A} → IsValid b → peek b d ≡ Queue.front (contents d b) d
  unfolding peek Queue.front
  peek_refines d {b} v = elim (Bool-cases (empty b)) [
    | inl bare ↦ rw (bare, (empty_iff v).0 bare)
    | inr held ↦
        rw (held, items_split d b.buf b.max_size (size b) b.tail (ground (arith, empty_iff v)))
          (ap (λ i. get_or b.buf i d) (sym (mod-eq_of_lt v.tail_in)))
  ]

  -- `reset` leaves the empty queue.
  pub reset_refines : (d : A) {b : CircularBuffer A} → IsValid b → contents d (reset b) ≡ []
  reset_refines d {b} v = rw (size-reset b v)
