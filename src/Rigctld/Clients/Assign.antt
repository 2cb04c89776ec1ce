-- ===== src/Rigctld/Clients/Assign.antt =====
-- Assignments to the clients of a map.
use cwsd.Shared.{ℕ, ◌≡◌, refl, ap, ◌∙◌, true, ◌||◌, [], ◌∷◌, ◌==◌, Bool-cases, inl, inr}
use cwsd.Rigctld.Client.{RigctldClient}
use cwsd.Rigctld.Clients.{Clients, has_key, value_at, assign}

pub value_at-assign :
    (k : ℕ) (c : RigctldClient) (cs : Clients)
    → has_key k cs ≡ true
    → value_at k (assign k c cs) ≡ c
value_at-assign k c [] e = cc
value_at-assign k c ((j, d) ∷ cs) e = elim (Bool-cases (k == j)) [
  | inl same ↦ rw (same, same) refl
  | inr other ↦ rw (other, other) (value_at-assign k c cs (rw other at e))
]

pub has_key-assign :
    (i k : ℕ) (c : RigctldClient) (cs : Clients) → has_key i (assign k c cs) ≡ has_key i cs
has_key-assign i k c [] = refl
has_key-assign i k c ((j, d) ∷ cs) = elim (Bool-cases (k == j)) [
  | inl same ↦ rw same refl
  | inr other ↦ rw other (ap (λ b. i == j || b) (has_key-assign i k c cs))
]

pub assign-assign :
    (k : ℕ) (c d : RigctldClient) (cs : Clients) → assign k d (assign k c cs) ≡ assign k d cs
assign-assign k c d [] = refl
assign-assign k c d ((j, x) ∷ cs) = elim (Bool-cases (k == j)) [
  | inl same ↦ rw (same, same) refl
  | inr other ↦ rw (other, other) (ap (λ t. (j, x) ∷ t) (assign-assign k c d cs))
]

pub assign-value_at : (k : ℕ) (cs : Clients) → assign k (value_at k cs) cs ≡ cs
assign-value_at k [] = refl
assign-value_at k ((j, x) ∷ cs) = elim (Bool-cases (k == j)) [
  | inl same ↦ rw same refl
  | inr other ↦
      let later : value_at k ((j, x) ∷ cs) ≡ value_at k cs = rw other refl in
      rw other
        (ap (λ c. (j, x) ∷ assign k c cs) later ∙ ap (λ t. (j, x) ∷ t) (assign-value_at k cs))
]
