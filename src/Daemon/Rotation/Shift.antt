-- ===== src/Daemon/Rotation/Shift.antt =====
-- Each log moves up by one.
use cwsd.Shared.{
  ℕ, zero, suc, ◌+◌, ◌-◌, ◌<◌, ◌≤◌, ◌≡◌, ◌≢◌, refl, sym, ap, ap₂, ◌∙◌, false, Option, none, some,
  List, [], ◌∷◌, ◌++◌, ltb, ◌==◌, ==_iff, ==_refl, same_text, same_text_refl, if◌then◌else◌,
  Bool-cases, Option-cases, inl, inr, arith,
}
use cwsd.Daemon.Rotation.{Files, rename, numbered, shift, pre_rollout_callback}

same_text-append : (p a b : List ℕ) → same_text (p ++ a) (p ++ b) ≡ same_text a b
same_text-append [] a b = refl
same_text-append (c ∷ p) a b = ground (arith, ==_refl c, same_text-append p a b)

same_text_longer : (p : List ℕ) (c : ℕ) (cs : List ℕ) → same_text p (p ++ c ∷ cs) ≡ false
same_text_longer [] c cs = refl
same_text_longer (d ∷ p) c cs = ground (arith, ==_refl d, same_text_longer p c cs)

same_text_shorter : (p : List ℕ) (c : ℕ) (cs : List ℕ) → same_text (p ++ c ∷ cs) p ≡ false
same_text_shorter [] c cs = refl
same_text_shorter (d ∷ p) c cs = ground (arith, ==_refl d, same_text_shorter p c cs)

abbrev pub or_else : Option (List ℕ) → Option (List ℕ) → Option (List ℕ)
or_else none o = o
or_else (some content) o = some content

rename_missing : (old new : List ℕ) (f : Files) → f old ≡ none → rename old new f ≡ f
unfolding rename
rename_missing old new f e = rw (e, rename) refl

rename_lem :
    (old new path : List ℕ) (f : Files) {content : List ℕ}
    → f old ≡ some content
    → rename old new f path
      ≡ (if same_text path new then some content else if same_text path old then none else f path)
unfolding rename
rename_lem old new path f e = rw (e, rename) refl

module _ (p : List ℕ) where
  same_numbered : (i j : ℕ) → same_text (numbered p i) (numbered p j) ≡ (i == j)
  same_numbered i j =
      same_text-append p (b'.' ∷ (b'0' + i) ∷ []) (b'.' ∷ (b'0' + j) ∷ []) ∙ ground arith

  -- The log of a digit after one file has moved up.
  moved :
      (f : Files) (i d : ℕ)
      → rename (numbered p i) (numbered p (suc i)) f (numbered p d) ≡ (
          if d == suc i
          then or_else (f (numbered p i)) (f (numbered p d))
          else if d == i
          then none
          else f (numbered p d))
  moved f i d = elim (Option-cases (f (numbered p i))) [
    | inl missing ↦
        ap (λ g. g (numbered p d)) (rename_missing (numbered p i) (numbered p (suc i)) f missing)
        ∙ elim (Bool-cases (d == i)) [
          | inl same ↦
              let gone = ap (λ k. f (numbered p k)) ((==_iff d i).0 same) ∙ missing in
              ground (arith, gone, missing)
          | inr other ↦ ground (arith, missing)
        ]
    | inr (content, there) ↦
        rename_lem (numbered p i) (numbered p (suc i)) (numbered p d) f there
        ∙ ground (arith, same_numbered d (suc i), same_numbered d i, there)
  ]

  abbrev pub log : Files → ℕ → Option (List ℕ)
  log g k = g (numbered p k)

  module _ (f : Files) (i d : ℕ) where
    stepped : Files
    stepped = rename (numbered p i) (numbered p (suc i)) f

    moved_onto : d ≡ suc i → log stepped d ≡ or_else (log f (d - 1)) (log f d)
    unfolding stepped
    moved_onto e =
        let below : i ≡ d - 1 = omega arith in
        moved f i d ∙ ground (arith, ap (λ k. f (numbered p k)) below)

    moved_off : d ≡ i → log stepped d ≡ none
    unfolding stepped
    moved_off e = moved f i d ∙ ground arith

    not_moved : d ≢ i → d ≢ suc i → log stepped d ≡ log f d
    unfolding stepped
    not_moved n m = moved f i d ∙ ground arith

  base_unmoved : (f : Files) (i : ℕ) → rename (numbered p i) (numbered p (suc i)) f p ≡ f p
  base_unmoved f i = elim (Option-cases (f (numbered p i))) [
    | inl missing ↦ ap (λ g. g p) (rename_missing (numbered p i) (numbered p (suc i)) f missing)
    | inr (content, there) ↦
        rename_lem (numbered p i) (numbered p (suc i)) p f there
        ∙ ground (
          arith,
          same_text_longer p b'.' ((b'0' + i) ∷ []),
          same_text_longer p b'.' ((b'0' + suc i) ∷ []),
        )
  ]

  or_else_none : (o : Option (List ℕ)) → or_else o none ≡ o
  or_else_none none = refl
  or_else_none (some content) = refl

  -- The loop, on the logs with the digits up to the first one.
  shift_lem :
      (i : ℕ) (f : Files) (d : ℕ)
      → (i ≡ 0 → log (shift p i f) d ≡ log f d)
        × (d ≡ 0 → 0 < i → log (shift p i f) d ≡ none)
        × (0 < d → d < i → log (shift p i f) d ≡ log f (d - 1))
        × (0 < d → d ≡ i → log (shift p i f) d ≡ or_else (log f (d - 1)) (log f d))
        × (i < d → log (shift p i f) d ≡ log f d)
  unfolding shift stepped
  shift_lem zero f d = (
    λ e. refl,
    λ e l. absurd (omega arith),
    λ a b. absurd (omega arith),
    λ a e. absurd (omega arith),
    λ l. refl,
  )
  shift_lem (suc i) f d =
      let (unmoved, first, inner, last, outer) = shift_lem i (stepped f i d) d in
      (
        λ e. absurd (omega arith),
        λ e l. elim (Bool-cases (ltb 0 i)) [
          | inl some_left ↦ first e (ground arith)
          | inr none_left ↦ unmoved (ground arith) ∙ moved_off f i d (ground arith)
        ],
        λ a b. elim (Bool-cases (ltb d i)) [
          | inl below ↦
              inner a (ground arith) ∙ not_moved f i (d - 1) (λ e. ground arith) (λ e. ground arith)
          | inr at ↦
              last a (ground arith)
              ∙ ap₂ or_else (not_moved f i (d - 1) (λ e. ground arith) (λ e. ground arith))
                  (moved_off f i d (ground arith))
              ∙ or_else_none (log f (d - 1))
        ],
        λ a e. outer (omega arith) ∙ moved_onto f i d e,
        λ l. outer (omega arith) ∙ not_moved f i d (λ e. omega arith) (λ e. omega arith),
      )

  shift_keeps_base : (i : ℕ) (f : Files) → shift p i f p ≡ f p
  unfolding shift
  shift_keeps_base zero f = refl
  shift_keeps_base (suc i) f =
      shift_keeps_base i (rename (numbered p i) (numbered p (suc i)) f) ∙ base_unmoved f i

  -- The last renaming.
  base_moved :
      (f : Files) {content : List ℕ} (d : ℕ)
      → f p ≡ some content
      → log (rename p (numbered p 1) f) d ≡ (if d == 1 then some content else log f d)
  base_moved f d there =
      rename_lem p (numbered p 1) (numbered p d) f there
      ∙ ground (arith, same_numbered d 1, same_text_shorter p b'.' ((b'0' + d) ∷ []))

  base_gone :
      (f : Files) {content : List ℕ} → f p ≡ some content → rename p (numbered p 1) f p ≡ none
  base_gone f there =
      rename_lem p (numbered p 1) p f there
      ∙ ground (arith, same_text_longer p b'.' ((b'0' + 1) ∷ []), same_text_refl p)

  -- When the log is full, each log of a digit from 1 to 7 moves to the next digit, whether or not
  -- there is one, that of 8 replaces that of 9 if there is one, the log itself gets the digit 1, and
  -- its own path is free.
  pub pre_rollout_callback_lem :
      (f : Files) (d : ℕ) {content : List ℕ}
      → f p ≡ some content
      → 2 ≤ d
      → d ≤ 8
      → (log (pre_rollout_callback p f) d ≡ log f (d - 1))
        × (log (pre_rollout_callback p f) 9 ≡ or_else (log f 8) (log f 9))
        × (log (pre_rollout_callback p f) 1 ≡ f p)
        × (pre_rollout_callback p f p ≡ none)
  unfolding pre_rollout_callback
  pre_rollout_callback_lem f d {content} there low high =
      let shifted : shift p 9 f p ≡ some content = shift_keeps_base 9 f ∙ there in
      (
        base_moved (shift p 9 f) d shifted
            ∙ ground (arith, (shift_lem 9 f d).2 (omega arith) (omega arith)),
        base_moved (shift p 9 f) 9 shifted ∙ (shift_lem 9 f 9).3 (omega arith) refl,
        base_moved (shift p 9 f) 1 shifted ∙ sym there,
        base_gone (shift p 9 f) shifted,
      )
