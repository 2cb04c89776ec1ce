-- ===== src/Daemon/Rotation.antt =====
-- main.cpp, `pre_rollout_callback`: the logs that are kept. The files are a function from paths to
-- contents, `none` where there is no file.
pub mod Shift
use cwsd.Shared.{
  ℕ, zero, suc, ◌+◌, Option, none, some, List, [], ◌∷◌, ◌++◌, same_text, if◌then◌else◌,
}

abbrev pub Files : Type 0
Files = List ℕ → Option (List ℕ)

-- `rename` of a file to another path; it fails where there is no file.
unfoldable pub rename : List ℕ → List ℕ → Files → Files
rename old new files = elim (files old) [
  | none ↦ files
  | some content ↦ λ path.
      if same_text path new then some content else if same_text path old then none else files path
]

-- The path with a digit behind it.
abbrev pub numbered : List ℕ → ℕ → List ℕ
numbered full_path i = full_path ++ b'.' ∷ (b'0' + i) ∷ []

-- The loop, from a digit down to 1.
unfoldable pub shift : List ℕ → ℕ → Files → Files
unfolding rename
shift full_path zero files = files
shift full_path (suc i) files =
    shift full_path i (rename (numbered full_path i) (numbered full_path (suc i)) files)

unfoldable pub pre_rollout_callback : List ℕ → Files → Files
unfolding shift rename
pre_rollout_callback full_path files =
    rename full_path (numbered full_path 1) (shift full_path 9 files)
