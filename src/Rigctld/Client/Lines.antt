-- ===== src/Rigctld/Client/Lines.antt =====
-- The first line of the read buffer, and what a turn of the loop over the lines leaves.
use cwsd.Shared.{
  ℕ, ◌<◌, ◌≡◌, ◌≢◌, refl, sym, ap, ◌∙◌, some, List, [], ◌∷◌, ◌++◌, length, ◌==◌, All, Bool-cases,
  Option-cases, inl, inr, arith,
}
use cwsd.Strings.{c_string}
use cwsd.Rigctld.Hamlib.{Hamlib}
use cwsd.Rigctld.Interpret.{Outcome, answered, quits, throws, undefined}
use cwsd.Rigctld.Client.{
  RigctldClient, Serving, Progress, kept, closed, broken, Written, out_of_fuel, while_kept,
  split_line, append_response, send_responses, after_line, appended,
}

pub split_line-length :
    (cs : List ℕ) {line rest : List ℕ} → split_line cs ≡ some (line, rest) → length rest < length cs
unfolding split_line
split_line-length [] e = cc
split_line-length (c ∷ cs) e = elim (Bool-cases (c == b'\n')) [
  | inl ends ↦ ground arith
  | inr more ↦ elim (Option-cases (split_line cs)) [
    | inl missing ↦ ground arith
    | inr ((l, r), found) ↦ ground (arith, split_line-length cs found)
  ]
]

pub split_line-append :
    (cs ds : List ℕ) {line rest : List ℕ}
    → split_line cs ≡ some (line, rest)
    → split_line (cs ++ ds) ≡ some (line, rest ++ ds)
unfolding split_line
split_line-append [] ds e = cc
split_line-append (c ∷ cs) ds e = elim (Bool-cases (c == b'\n')) [
  | inl ends ↦ ground arith
  | inr more ↦ elim (Option-cases (split_line cs)) [
    | inl missing ↦ ground arith
    | inr ((l, r), found) ↦ ground (arith, split_line-append cs ds found)
  ]
]

-- The text has no zero byte.
abbrev pub IsText : List ℕ → Type 0
IsText cs = All (λ c. c ≢ 0) cs

pub c_string_lem : (cs : List ℕ) → IsText cs → c_string cs ≡ cs
unfolding c_string
c_string_lem [] t = refl
c_string_lem (c ∷ cs) t = ground (arith, c_string_lem cs t.1)

module _ (h : Hamlib) where
  pub while_kept_cong :
      (p : Progress h) (f g : Serving h → Progress h)
      → ((s : Serving h) → p ≡ kept s → f s ≡ g s)
      → while_kept h p f ≡ while_kept h p g
  while_kept_cong (kept s) f g same = same s refl
  while_kept_cong (closed s) f g same = refl
  while_kept_cong broken f g same = refl
  while_kept_cong out_of_fuel f g same = refl

  pub while_kept_inv :
      (p : Progress h) (f : Serving h → Progress h) {s : Serving h}
      → while_kept h p f ≡ kept s
      → (t : Serving h) × (p ≡ kept t) × (f t ≡ kept s)
  while_kept_inv (kept t) f e = (t, refl, e)
  while_kept_inv (closed t) f e = cc
  while_kept_inv broken f e = cc
  while_kept_inv out_of_fuel f e = cc

  pub while_kept_ends :
      (p : Progress h) (f : Serving h → Progress h)
      → p ≢ out_of_fuel
      → ((s : Serving h) → p ≡ kept s → f s ≢ out_of_fuel)
      → while_kept h p f ≢ out_of_fuel
  while_kept_ends (kept s) f ends ends_too = ends_too s refl
  while_kept_ends (closed s) f ends ends_too = ends
  while_kept_ends broken f ends ends_too = ends
  while_kept_ends out_of_fuel f ends ends_too = ends

  pub after_line_ends :
      (flush : Written) (s : Serving h) (rest : List ℕ) (o : Outcome h)
      → after_line h flush s rest o ≢ out_of_fuel
  unfolding after_line
  after_line_ends flush s rest (answered cs rs) e = cc
  after_line_ends flush s rest throws e = cc
  after_line_ends flush s rest quits e = cc
  after_line_ends flush s rest undefined e = cc

  abbrev pub served : Progress h → Serving h → Serving h
  served (kept s) d = s
  served (closed s) d = d
  served broken d = d
  served out_of_fuel d = d

  pub after_line_rest :
      (flush : Written) (s : Serving h) (rest : List ℕ) (o : Outcome h) {t : Serving h}
      → after_line h flush s rest o ≡ kept t
      → t.client.read_buffer ≡ rest
  unfolding after_line
  after_line_rest flush s rest (answered cs rs) e =
      ap (λ p. (served p s).client.read_buffer) (sym e)
  after_line_rest flush s rest throws e = ap (λ p. (served p s).client.read_buffer) (sym e)
  after_line_rest flush s rest quits e = cc
  after_line_rest flush s rest undefined e = cc

  pub send_responses-buffer :
      (rs : List (List ℕ)) (c : RigctldClient) (text : List ℕ)
      → send_responses rs (record c { read_buffer = text })
        ≡ record (send_responses rs c) { read_buffer = text }
  unfolding append_response send_responses
  send_responses-buffer [] c text = refl
  send_responses-buffer (r ∷ rs) c text = send_responses-buffer rs (append_response r c) text

  abbrev pub appends : List ℕ → Progress h → Progress h
  appends ds (kept s) = kept (appended h ds s)
  appends ds (closed s) = closed s
  appends ds broken = broken
  appends ds out_of_fuel = out_of_fuel

  pub after_line-appended :
      (flush : Written) (s : Serving h) (rest ds : List ℕ) (o : Outcome h) {t : Serving h}
      → after_line h flush s rest o ≡ kept t
      → after_line h flush (appended h ds s) (rest ++ ds) o ≡ kept (appended h ds t)
  unfolding after_line append_response
  after_line-appended flush s rest ds (answered cs rs) e =
      ap
        (λ c.
          kept (record { client = record c { read_buffer = rest ++ ds }; calls = s.calls ++ cs }))
        (send_responses-buffer rs s.client (s.client.read_buffer ++ ds))
      ∙ ap (appends ds) e
  after_line-appended flush s rest ds throws e = ap (appends ds) e
  after_line-appended flush s rest ds quits e = cc
  after_line-appended flush s rest ds undefined e = cc
