-- ===== src/Rigctld/Dump.antt =====
-- src/rigctld_server.cpp, `dump_state`: the capabilities of the rig, line by line.
use cwsd.Shared.{
  ℕ, zero, suc, ◌+◌, ◌-◌, ◌/◌, ◌%◌, Bool, false, List, [], ◌∷◌, ◌++◌, ltb, ◌==◌, codes, print_ℕ,
  if◌then◌else◌,
}
use mathlib.Core.List.{map}
use cwsd.Strings.{ℤ, pos, negsuc, print_ℤ}
use cwsd.Rigctld.Hamlib.{Hamlib, FreqRange, ModesWith, Capabilities}

-- The digits to the base 16 of a number below 16 ^ k.
unfoldable pub hexadecimal : ℕ → ℕ → List ℕ
hexadecimal zero n = []
hexadecimal (suc k) n =
    let front = hexadecimal k (n / 16) in
    let digit = if ltb (n % 16) 10 then b'0' + n % 16 else b'a' + (n % 16 - 10) in
    if ltb n 16 then digit ∷ [] else front ++ digit ∷ []

-- `0x%llx` and `0x%x`, of a number of at most 64 bits.
unfoldable pub print_hex : ℕ → List ℕ
unfolding hexadecimal
print_hex n = codes "0x" ++ hexadecimal 16 n

-- The items of an array of `size` before the one that ends the list.
unfoldable pub listed {ℓ} : {A : Type ℓ} → ℕ → (A → Bool) → List A → List A
listed zero is_end xs = []
listed (suc size) is_end [] = []
listed (suc size) is_end (x ∷ xs) =
    let rest = listed size is_end xs in if is_end x then [] else x ∷ rest

abbrev is_zero : ℤ → Bool
is_zero (pos n) = n == 0
is_zero (negsuc n) = false

-- A line is its words, with a space between two of them.
unfoldable pub print_line : List (List ℕ) → List ℕ
print_line [] = b'\n' ∷ []
print_line (w ∷ []) = w ++ b'\n' ∷ []
print_line (w ∷ ws) = w ++ b' ' ∷ print_line ws

unfoldable pub print_lines : List (List (List ℕ)) → List ℕ
unfolding print_line
print_lines [] = []
print_lines (l ∷ ls) = print_line l ++ print_lines ls

-- `"%d "` for each of the numbers.
unfoldable pub print_each : List ℤ → List ℕ
print_each [] = []
print_each (n ∷ ns) = print_ℤ n ++ b' ' ∷ print_each ns

-- `"0x%llx %ld\n"`
unfoldable pub modes_line : ModesWith → List (List ℕ)
unfolding print_hex
modes_line m = print_hex m.modes ∷ print_ℤ m.amount ∷ []

-- What ends a list of ranges, and one of steps or filters.
abbrev pub ranges_end : List (List ℕ)
ranges_end = codes "0" ∷ codes "0" ∷ codes "0" ∷ codes "0" ∷ codes "0" ∷ codes "0" ∷ codes "0" ∷ []

abbrev pub modes_end : List (List ℕ)
modes_end = codes "0" ∷ codes "0" ∷ []

-- The lines of a list, and the one that ends it.
unfoldable pub closed : List (List ℕ) → List (List (List ℕ)) → List (List (List ℕ))
closed end ls = ls ++ end ∷ []

module _ (h : Hamlib) where
  -- `"%lf %lf 0x%llx %d %d 0x%x 0x%x\n"`
  unfoldable pub range_line : FreqRange h → List (List ℕ)
  unfolding print_hex
  range_line r =
      h.print_float r.startf
      ∷ h.print_float r.endf
      ∷ print_hex r.modes
      ∷ print_ℤ r.low_power
      ∷ print_ℤ r.high_power
      ∷ print_hex r.vfo
      ∷ print_hex r.ant
      ∷ []

  -- The ranges, steps and filters, each list with the line that ends it.
  unfoldable pub list_lines : Capabilities h → List (List (List ℕ))
  unfolding listed range_line modes_line closed
  list_lines c =
      closed ranges_end (map range_line (listed c.frqrangesiz c.is_frng_end c.rx_range_list))
      ++ closed ranges_end (map range_line (listed c.frqrangesiz c.is_frng_end c.tx_range_list))
      ++ closed modes_end (map modes_line (listed c.tslstsiz c.is_ts_end c.tuning_steps))
      ++ closed modes_end (map modes_line (listed c.fltlstsiz c.is_flt_end c.filters))

  -- The lines behind the lists.
  unfoldable pub value_lines : Capabilities h → List (List (List ℕ))
  unfolding listed print_each print_hex
  value_lines c =
      (print_ℤ c.max_rit ∷ [])
      ∷ (print_ℤ c.max_xit ∷ [])
      ∷ (print_ℤ c.max_ifshift ∷ [])
      ∷ (print_ℤ c.announces ∷ [])
      ∷ (print_each (listed c.maxdblstsiz is_zero c.preamp) ∷ [])
      ∷ (print_each (listed c.maxdblstsiz is_zero c.attenuator) ∷ [])
      ∷ (print_hex c.has_get_func ∷ [])
      ∷ (print_hex c.has_set_func ∷ [])
      ∷ (print_hex c.has_get_level ∷ [])
      ∷ (print_hex c.has_set_level ∷ [])
      ∷ (print_hex c.has_get_parm ∷ [])
      ∷ (print_hex c.has_set_parm ∷ [])
      ∷ []

  -- The version of the protocol, the model and the region that is not used come first.
  unfoldable pub dump_lines : Capabilities h → List (List (List ℕ))
  unfolding list_lines value_lines
  dump_lines c =
      ((codes "0" ∷ []) ∷ (print_ℕ c.rig_model ∷ []) ∷ (codes "0" ∷ []) ∷ [])
      ++ list_lines c
      ++ value_lines c

  unfoldable pub dump_state : Capabilities h → List ℕ
  unfolding dump_lines print_lines
  dump_state c = print_lines (dump_lines c)
