-- ===== src/Daemon/Settings.antt =====
-- `cwsd_config` of src/cwsd.h, with the members of the servers' own headers, and what a member has by
-- default.
use cwsd.Shared.{ℕ, Bool, false, List, [], codes}
use cwsd.Strings.{ℤ, pos}

pub record RigConfig : Type 0 where
  pub port : List ℕ
  pub model : ℤ
  pub serial_speed : ℤ

pub record CwdaemonConfig : Type 0 where
  pub enabled : Bool
  pub port : ℤ
  pub initial_wpm : ℤ

pub record RigctldConfig : Type 0 where
  pub enabled : Bool
  pub port : ℤ

pub record AudioStreamConfig : Type 0 where
  pub enabled : Bool
  pub device : List ℕ
  pub port : ℕ
  pub sample_rate : ℕ
  pub channels : ℤ
  pub bitrate : ℤ
  pub frame_ms : ℤ
  pub client_timeout_ms : ℤ
  pub fec_loss_perc : ℤ

-- `remote_key_config`, with the members that open the socket and the device.
pub record RemoteKeySettings : Type 0 where
  pub enabled : Bool
  pub port : ℤ
  pub device : List ℕ
  pub playout_ms : ℕ
  pub silence_ms : ℕ
  pub max_key_down_ms : ℕ
  pub ptt_lead_ms : ℕ
  pub ptt_tail_ms : ℕ

pub record LoggingConfig : Type 0 where
  pub filename : List ℕ
  pub level : List ℕ
  pub max_size : ℕ

pub record CwsdConfig : Type 0 where
  pub cwdaemon : CwdaemonConfig
  pub rigctld : RigctldConfig
  pub rig : RigConfig
  pub audio : AudioStreamConfig
  pub remote_key : RemoteKeySettings
  pub logging : LoggingConfig

abbrev pub default_audio : AudioStreamConfig
default_audio = record {
  enabled = false;
  device = codes "default";
  port = 0;
  sample_rate = 8000;
  channels = pos 1;
  bitrate = pos 96000;
  frame_ms = pos 20;
  client_timeout_ms = pos 10000;
  fec_loss_perc = pos 10;
}

abbrev pub default_remote_key : RemoteKeySettings
default_remote_key = record {
  enabled = false;
  port = pos 0;
  device = [];
  playout_ms = 150;
  silence_ms = 250;
  max_key_down_ms = 5000;
  ptt_lead_ms = 10;
  ptt_tail_ms = 100;
}

abbrev pub default_logging : LoggingConfig
default_logging = record { filename = codes "cwsd.log"; level = codes "info"; max_size = 1048576 }
