-- ===== src/Daemon/Config.antt =====
-- main.cpp, `read_config`, and the constructor and `run` of src/cwsd.cpp: what is configured, and the
-- servers that are started and stopped. A document of the YAML library is a parameter.
use cwsd.Shared.{ℕ, Bool, true, Option, none, some, List, [], ◌∷◌, ◌++◌, codes, if◌then◌else◌}
use cwsd.Strings.{ℤ, pos}
use cwsd.Daemon.Settings.{
  RigConfig, CwdaemonConfig, RigctldConfig, AudioStreamConfig, RemoteKeySettings, LoggingConfig,
  CwsdConfig, default_audio, default_remote_key, default_logging,
}

-- What is used of `fkyaml::node`: `contains`, `operator[]` and `get_value` of the types in use, which
-- throw (`none`) where the key is missing or the value is not one of the type.
pub record Yaml : Type 1 where
  pub Node : Type 0
  pub contains : Node → List ℕ → Bool
  pub item : Node → List ℕ → Option Node
  pub get_bool : Node → Option Bool
  pub get_int : Node → Option ℤ
  pub get_u16 : Node → Option ℕ
  pub get_u32 : Node → Option ℕ
  pub get_string : Node → Option (List ℕ)

infixl 5 ◌>>=◌
abbrev pub ◌>>=◌ : {A B : Type 0} → Option A → (A → Option B) → Option B
none >>= f = none
some a >>= f = f a

module _ (y : Yaml) where
  open y use {Node, contains, item, get_bool, get_int, get_u16, get_u32, get_string}

  -- `node[key].get_value<T>()`
  abbrev pub required : {A : Type 0} → (Node → Option A) → Node → List ℕ → Option A
  required get node key = item node key >>= get

  -- The same under `contains`, else what the member has by default.
  abbrev pub optional : {A : Type 0} → (Node → Option A) → Node → List ℕ → A → Option A
  optional get node key default = if contains node key then required get node key else some default

  unfoldable pub read_rig : Node → Option RigConfig
  read_rig node = do
    model ← required get_int node (codes "model")
    port ← required get_string node (codes "port")
    serial_speed ← optional get_int node (codes "serial_speed") (pos 0)
    some (record { port = port; model = model; serial_speed = serial_speed })

  unfoldable pub read_cwdaemon : Node → Option CwdaemonConfig
  read_cwdaemon node = do
    enabled ← required get_bool node (codes "enabled")
    port ← required get_int node (codes "port")
    initial_wpm ← required get_int node (codes "initial_wpm")
    some (record { enabled = enabled; port = port; initial_wpm = initial_wpm })

  unfoldable pub read_rigctld : Node → Option RigctldConfig
  read_rigctld node = do
    enabled ← required get_bool node (codes "enabled")
    port ← required get_int node (codes "port")
    some (record { enabled = enabled; port = port })

  unfoldable pub read_enabled_audio : Node → Option AudioStreamConfig
  read_enabled_audio node = do
    port ← required get_u16 node (codes "port")
    device ← optional get_string node (codes "device") default_audio.device
    sample_rate ← optional get_u32 node (codes "sample_rate") default_audio.sample_rate
    channels ← optional get_int node (codes "channels") default_audio.channels
    bitrate ← optional get_int node (codes "bitrate") default_audio.bitrate
    frame_ms ← optional get_int node (codes "frame_ms") default_audio.frame_ms
    client_timeout_ms ←
        optional get_int node (codes "client_timeout_ms") default_audio.client_timeout_ms
    fec_loss_perc ← optional get_int node (codes "fec_loss_perc") default_audio.fec_loss_perc
    some (record {
      enabled = true;
      device = device;
      port = port;
      sample_rate = sample_rate;
      channels = channels;
      bitrate = bitrate;
      frame_ms = frame_ms;
      client_timeout_ms = client_timeout_ms;
      fec_loss_perc = fec_loss_perc;
    })

  unfoldable pub read_audio : Node → Option AudioStreamConfig
  unfolding read_enabled_audio
  read_audio node = do
    enabled ← required get_bool node (codes "enabled")
    if enabled then read_enabled_audio node else some default_audio

  -- `rig_port` is the device where there is none for the key.
  unfoldable pub read_enabled_remote_key : List ℕ → Node → Option RemoteKeySettings
  read_enabled_remote_key rig_port node = do
    port ← required get_int node (codes "port")
    device ← optional get_string node (codes "device") rig_port
    playout_ms ← optional get_u32 node (codes "playout_ms") default_remote_key.playout_ms
    silence_ms ← optional get_u32 node (codes "silence_ms") default_remote_key.silence_ms
    max_key_down_ms ←
        optional get_u32 node (codes "max_key_down_ms") default_remote_key.max_key_down_ms
    ptt_lead_ms ← optional get_u32 node (codes "ptt_lead_ms") default_remote_key.ptt_lead_ms
    ptt_tail_ms ← optional get_u32 node (codes "ptt_tail_ms") default_remote_key.ptt_tail_ms
    some (record {
      enabled = true;
      port = port;
      device = device;
      playout_ms = playout_ms;
      silence_ms = silence_ms;
      max_key_down_ms = max_key_down_ms;
      ptt_lead_ms = ptt_lead_ms;
      ptt_tail_ms = ptt_tail_ms;
    })

  unfoldable pub read_remote_key : List ℕ → Node → Option RemoteKeySettings
  unfolding read_enabled_remote_key
  read_remote_key rig_port node = do
    enabled ← required get_bool node (codes "enabled")
    if enabled then read_enabled_remote_key rig_port node else some default_remote_key

  unfoldable pub read_logging : Node → Option LoggingConfig
  read_logging node = do
    level ← optional get_string node (codes "level") default_logging.level
    filename ← optional get_string node (codes "filename") default_logging.filename
    max_size ← optional get_u32 node (codes "max_size") default_logging.max_size
    some (record { filename = filename; level = level; max_size = max_size })

  -- A section that may be missing.
  abbrev pub section : {A : Type 0} → (Node → Option A) → Node → List ℕ → A → Option A
  section read root key default = if contains root key then item root key >>= read else some default

  -- `read_config` of a document that could be opened and parsed; `none` is an exception.
  unfoldable pub read_config : Node → Option CwsdConfig
  unfolding read_rig read_cwdaemon read_rigctld read_audio read_remote_key read_logging
  read_config root = do
    rig_node ← item root (codes "rig")
    rig ← read_rig rig_node
    cwdaemon_node ← item root (codes "cwdaemon")
    cwdaemon ← read_cwdaemon cwdaemon_node
    rigctld_node ← item root (codes "rigctld")
    rigctld ← read_rigctld rigctld_node
    audio ← section read_audio root (codes "audio") default_audio
    remote_key ← section (read_remote_key rig.port) root (codes "remote_key") default_remote_key
    logging ← section read_logging root (codes "logging") default_logging
    some (record {
      cwdaemon = cwdaemon;
      rigctld = rigctld;
      rig = rig;
      audio = audio;
      remote_key = remote_key;
      logging = logging;
    })

pub data Server : Type 0 where
  rigctld_server cwdaemon_server audio_stream_server remote_key_server : Server

-- `cwsd::cwsd`: the servers that are started, in their order; `run` updates and stops the same ones
-- in the same order.
unfoldable pub started : CwsdConfig → List Server
started cfg =
    (if cfg.rigctld.enabled then rigctld_server ∷ [] else [])
    ++ (if cfg.cwdaemon.enabled then cwdaemon_server ∷ [] else [])
    ++ (if cfg.audio.enabled then audio_stream_server ∷ [] else [])
    ++ (if cfg.remote_key.enabled then remote_key_server ∷ [] else [])
