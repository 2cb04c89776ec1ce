-- ===== src/Daemon/Tests.antt =====
-- Logs and levels at concrete inputs.
use cwsd.Shared.{
  ℕ, Bool, true, false, Option, List, ◌≡◌, refl, none, some, codes, same_text, if◌then◌else◌, arith,
}
use cwsd.Strings.{ℤ, pos}
use cwsd.Daemon.Config.{Yaml}
use cwsd.Daemon.Settings.{CwsdConfig, default_audio, default_remote_key, default_logging}
use cwsd.Daemon.Rotation.{Files, pre_rollout_callback}
use cwsd.Daemon.Rotation.Shift.{log, pre_rollout_callback_lem}

-- A log and its predecessor.
abbrev two_logs : Files
two_logs path =
    if same_text path (codes "log")
    then some (codes "new")
    else if same_text path (codes "log.1")
    then some (codes "old")
    else none

pre_rollout_callback_example :
    (log (codes "log") (pre_rollout_callback (codes "log") two_logs) 2 ≡ some (codes "old"))
    × (log (codes "log") (pre_rollout_callback (codes "log") two_logs) 9 ≡ none)
    × (log (codes "log") (pre_rollout_callback (codes "log") two_logs) 1 ≡ some (codes "new"))
    × (pre_rollout_callback (codes "log") two_logs (codes "log") ≡ none)
pre_rollout_callback_example =
    pre_rollout_callback_lem (codes "log") two_logs 2 refl (omega arith) (omega arith)

-- A document as a tree.
mutual
  data Document : Type 0 where
    flag : Bool → Document
    number : ℤ → Document
    text : List ℕ → Document
    mapping : Entries → Document

  data Entries : Type 0 where
    no_more : Entries
    entry : List ℕ → Document → Entries → Entries

abbrev entry_of : Entries → List ℕ → Option Document
entry_of no_more key = none
entry_of (entry k d es) key = if same_text k key then some d else entry_of es key

abbrev item_of : Document → List ℕ → Option Document
item_of (mapping es) key = entry_of es key
item_of (flag b) key = none
item_of (number n) key = none
item_of (text t) key = none

abbrev flag_of : Document → Option Bool
flag_of (flag b) = some b
flag_of (number n) = none
flag_of (text t) = none
flag_of (mapping es) = none

abbrev number_of : Document → Option ℤ
number_of (number n) = some n
number_of (flag b) = none
number_of (text t) = none
number_of (mapping es) = none

abbrev text_of : Document → Option (List ℕ)
text_of (text t) = some t
text_of (flag b) = none
text_of (number n) = none
text_of (mapping es) = none

abbrev trees : Yaml
trees = record {
  Node = Document;
  contains = λ node key. elim (item_of node key) [ none ↦ false | some d ↦ true ];
  item = item_of;
  get_bool = flag_of;
  get_int = number_of;
  get_u16 = λ node. none;
  get_u32 = λ node. none;
  get_string = text_of;
}

-- A rig, and the servers for keying and CAT, the first of them enabled.
abbrev short_document : Document
short_document = mapping (
    entry (codes "rig")
      (mapping (
        entry (codes "model") (number (pos 3073))
          (entry (codes "port") (text (codes "/dev/ttyUSB0")) no_more)))
      (entry (codes "cwdaemon")
        (mapping (
          entry (codes "enabled") (flag true) (
            entry (codes "port") (number (pos 6789))
              (entry (codes "initial_wpm") (number (pos 25)) no_more))))
        (entry (codes "rigctld")
          (mapping (
            entry (codes "enabled") (flag false)
              (entry (codes "port") (number (pos 4532)) no_more)))
          no_more)))

abbrev short_config : CwsdConfig
short_config = record {
  cwdaemon = record { enabled = true; port = pos 6789; initial_wpm = pos 25 };
  rigctld = record { enabled = false; port = pos 4532 };
  rig = record { port = codes "/dev/ttyUSB0"; model = pos 3073; serial_speed = pos 0 };
  audio = default_audio;
  remote_key = default_remote_key;
  logging = default_logging;
}
