-- ===== src/Rigctld/Clients/Keys.antt =====
-- The keys of the map of clients: each is its client's descriptor.
use cwsd.Shared.{
  ℕ, ◌≡◌, refl, sym, ap, ap₂, ◌∙◌, subst, Bool, true, false, ◌||◌, List, [], ◌∷◌, All, ltb, ◌==◌,
  ==_iff, ==_refl, if_both, if_either, Bool-cases, inl, inr, arith,
}
use mathlib.Core.List.{map}
use cwsd.Rigctld.Client.{RigctldClient}
use cwsd.Rigctld.Clients.{Clients, keys, has_key, value_at, place, insert, subscript, assign, erase}

abbrev pub WellKeyed : Clients → Type 0
WellKeyed cs = All (λ e. e.1.fd ≡ e.0) cs

abbrev pub fds : Clients → List ℕ
fds cs = map (λ e. e.1.fd) cs

pub fds-keys : (cs : Clients) → WellKeyed cs → fds cs ≡ keys cs
fds-keys [] w = refl
fds-keys (e ∷ cs) w = ap₂ (λ k ks. k ∷ ks) w.0 (fds-keys cs w.1)

abbrev listed : ℕ → List ℕ → Bool
listed k [] = false
listed k (j ∷ js) = k == j || listed k js

has_key-listed : (k : ℕ) (cs : Clients) → has_key k cs ≡ listed k (keys cs)
has_key-listed k [] = refl
has_key-listed k ((j, c) ∷ cs) = ap (λ b. k == j || b) (has_key-listed k cs)

-- The same keys are found.
pub has_key-keys : (k : ℕ) (cs ds : Clients) → keys cs ≡ keys ds → has_key k cs ≡ has_key k ds
has_key-keys k cs ds e = has_key-listed k cs ∙ ap (listed k) e ∙ sym (has_key-listed k ds)

listed_later :
    (j : ℕ) (js ks : List ℕ)
    → All (λ k. listed k js ≡ true) ks
    → All (λ k. listed k (j ∷ js) ≡ true) ks
listed_later j js [] a = tt
listed_later j js (k ∷ ks) a = (ground (arith, a.0), listed_later j js ks a.1)

pub listed-All : (js : List ℕ) → All (λ k. listed k js ≡ true) js
listed-All [] = tt
listed-All (j ∷ js) = (ground (arith, ==_refl j), listed_later j js js (listed-All js))

-- Every key of a map is found in it, and in each map with the same keys.
pub has_key-All : (cs : Clients) (ks : List ℕ) → keys cs ≡ ks → All (λ k. has_key k cs ≡ true) ks
has_key-All cs ks e =
    found ks (subst (λ js. All (λ k. listed k js ≡ true) ks) (sym e) (listed-All ks))
  where
    found :
        (js : List ℕ) → All (λ k. listed k (keys cs) ≡ true) js → All (λ k. has_key k cs ≡ true) js
    found [] a = tt
    found (j ∷ js) a = (has_key-listed j cs ∙ a.0, found js a.1)

pub subscript_present : (k : ℕ) (cs : Clients) → has_key k cs ≡ true → subscript k cs ≡ cs
unfolding subscript insert
subscript_present k cs e = ground (arith, e)

pub value_at-fd :
    (k : ℕ) (cs : Clients) → WellKeyed cs → has_key k cs ≡ true → (value_at k cs).fd ≡ k
value_at-fd k [] w e = cc
value_at-fd k ((j, c) ∷ cs) w e =
    if_either (λ (d : RigctldClient). d.fd ≡ k) (k == j) (λ same. w.0 ∙ sym ((==_iff k j).0 same))
      (λ other. value_at-fd k cs w.1 (ground arith))

pub keys-assign : (k : ℕ) (c : RigctldClient) (cs : Clients) → keys (assign k c cs) ≡ keys cs
keys-assign k c [] = refl
keys-assign k c ((j, d) ∷ cs) =
    if_both (λ ds. keys ds ≡ j ∷ keys cs) (k == j) refl (ap (λ ks. j ∷ ks) (keys-assign k c cs))

pub assign-WellKeyed :
    (k : ℕ) (c : RigctldClient) (cs : Clients) → c.fd ≡ k → WellKeyed cs → WellKeyed (assign k c cs)
assign-WellKeyed k c [] e w = w
assign-WellKeyed k c ((j, d) ∷ cs) e w =
    if_either WellKeyed (k == j) (λ same. (e ∙ (==_iff k j).0 same, w.1))
      (λ other. (w.0, assign-WellKeyed k c cs e w.1))

place-WellKeyed :
    (k : ℕ) (c : RigctldClient) (cs : Clients) → c.fd ≡ k → WellKeyed cs → WellKeyed (place k c cs)
unfolding place
place-WellKeyed k c [] e w = (e, tt)
place-WellKeyed k c ((j, d) ∷ cs) e w =
    if_both WellKeyed (ltb k j) (e, w) (w.0, place-WellKeyed k c cs e w.1)

pub insert-WellKeyed :
    (k : ℕ) (c : RigctldClient) (cs : Clients) → c.fd ≡ k → WellKeyed cs → WellKeyed (insert k c cs)
unfolding insert
insert-WellKeyed k c cs e w = if_both WellKeyed (has_key k cs) w (place-WellKeyed k c cs e w)

has_key-place :
    (j k : ℕ) (c : RigctldClient) (cs : Clients)
    → has_key j cs ≡ true
    → has_key j (place k c cs) ≡ true
unfolding place
has_key-place j k c [] e = cc
has_key-place j k c ((i, d) ∷ cs) e =
    if_both (λ ds. has_key j ds ≡ true) (ltb k i) (ground (arith, e))
      (elim (Bool-cases (j == i)) [
        | inl same ↦ ground arith
        | inr other ↦ ground (arith, has_key-place j k c cs (ground arith))
      ])

pub has_key-insert :
    (j k : ℕ) (c : RigctldClient) (cs : Clients)
    → has_key j cs ≡ true
    → has_key j (insert k c cs) ≡ true
unfolding insert
has_key-insert j k c cs e =
    if_both (λ ds. has_key j ds ≡ true) (has_key k cs) e (has_key-place j k c cs e)

pub erase-WellKeyed : (k : ℕ) (cs : Clients) → WellKeyed cs → WellKeyed (erase k cs)
unfolding erase
erase-WellKeyed k [] w = w
erase-WellKeyed k ((j, d) ∷ cs) w = if_both WellKeyed (k == j) w.1 (w.0, erase-WellKeyed k cs w.1)
