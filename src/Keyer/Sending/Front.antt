-- ===== src/Keyer/Sending/Front.antt =====
-- The bytes that the keyer takes off its buffer.
use cwsd.Shared.{
  ℕ, zero, suc, ◌≡◌, ◌≢◌, refl, sym, ap, ap₂, ◌∙◌, false, List, [], ◌∷◌, length, drop, arith,
}
use cwsd.Buffer.{CircularBuffer, get, peek, empty}
use cwsd.Buffer.Queue
use cwsd.Buffer.Inv.{IsValid, get-IsValid, empty_iff}
use cwsd.Buffer.Refine.{contents, length-contents, get_refines, peek_refines}
use cwsd.Keyer.States.{get_arguments}

front-pop : (q : List ℕ) → length q ≢ 0 → q ≡ Queue.front q 0 ∷ (Queue.pop q 0).1
unfolding Queue.front Queue.pop
front-pop [] h = absurd (h refl)
front-pop (x ∷ q) h = refl

pop-drop : (q : List ℕ) → (Queue.pop q 0).1 ≡ drop 1 q
unfolding Queue.pop
pop-drop [] = refl
pop-drop (x ∷ q) = refl

drop-drop : (n : ℕ) (q : List ℕ) → drop n (drop 1 q) ≡ drop (suc n) q
drop-drop zero [] = refl
drop-drop (suc n) [] = refl
drop-drop n (x ∷ q) = refl

-- A buffer that is not empty holds what `peek` shows and what `get` leaves.
pub contents-get :
    {b : CircularBuffer ℕ}
    → IsValid b
    → empty b ≡ false
    → contents 0 b ≡ peek b 0 ∷ contents 0 (get b 0).1
contents-get {b} v held =
    front-pop (contents 0 b) (ground (arith, length-contents 0 b, empty_iff v))
    ∙ ap₂ ◌∷◌ (sym (peek_refines 0 v)) (sym (ap (λ p. p.1) (get_refines 0 v)))

-- `get` called `n` times leaves a valid buffer that has lost as many bytes.
pub contents-get_arguments :
    (n : ℕ) {b : CircularBuffer ℕ}
    → IsValid b
    → IsValid (get_arguments n b).1 × (contents 0 (get_arguments n b).1 ≡ drop n (contents 0 b))
unfolding get_arguments
contents-get_arguments zero v = (v, refl)
contents-get_arguments (suc n) {b} v =
    let (w, e) = contents-get_arguments n (get-IsValid 0 v) in
    (
      w,
      e
          ∙ ap (drop n) (ap (λ p. p.1) (get_refines 0 v) ∙ pop-drop (contents 0 b))
          ∙ drop-drop n (contents 0 b),
    )
