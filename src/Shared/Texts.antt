-- ===== src/Shared/Texts.antt =====
-- Texts as lists of their bytes: literals, comparison, and `std::to_string` of an integer.
use Prim.Native.Char.{code}
use Prim.Native.String.{String}
use Prim.Native.Nat.{ℕ, zero, suc, ◌+◌, ◌/◌, ◌%◌}
use mathlib.Core.Path.{◌≡◌, refl, ap₂}
use mathlib.Core.Bool.{Bool, true, false, ◌&&◌}
use mathlib.Core.List.{List, [], ◌∷◌, ◌++◌}
use native.Mathlib.Omega.{arith}
use cwsd.Shared.Booleans.{ltb, ◌==◌, if◌then◌else◌}

-- The bytes of a literal.
abbrev pub codes : String → List ℕ
codes String.[] = []
codes (String.◌∷◌ c s) = code c ∷ codes s

-- `==` on texts
abbrev pub same_text : List ℕ → List ℕ → Bool
same_text [] [] = true
same_text [] (d ∷ ds) = false
same_text (c ∷ cs) [] = false
same_text (c ∷ cs) (d ∷ ds) = c == d && same_text cs ds

pub same_text_refl : (cs : List ℕ) → same_text cs cs ≡ true
same_text_refl [] = refl
same_text_refl (c ∷ cs) = ground (arith, same_text_refl cs)

pub same_text-eq : (cs ds : List ℕ) → same_text cs ds ≡ true → cs ≡ ds
same_text-eq [] [] h = refl
same_text-eq [] (d ∷ ds) h = cc
same_text-eq (c ∷ cs) [] h = cc
same_text-eq (c ∷ cs) (d ∷ ds) h =
    ap₂ (λ x xs. x ∷ xs) (ground arith) (same_text-eq cs ds (ground arith))

-- The digits of a number below 10 ^ k, with no zero in front.
unfoldable pub decimal : ℕ → ℕ → List ℕ
decimal zero n = []
decimal (suc k) n =
    let front = decimal k (n / 10) in
    if ltb n 10 then (b'0' + n) ∷ [] else front ++ (b'0' + n % 10) ∷ []

-- `std::to_string` of a number of at most 64 bits, which has at most 20 digits.
unfoldable pub print_ℕ : ℕ → List ℕ
unfolding decimal
print_ℕ n = decimal 20 n
