-- ===== src/Agent/Config.antt =====
-- `Config` and `LoadConfig` of internal/agent/config.go, on what the YAML decoder makes of the file.
-- Intervals are in seconds.
use screwlogger.Base.{
  ℕ, ◌*◌, ◌^◌, ◌<◌, ◌≡◌, inl, inr, ◌||◌, Option, none, some, arith, ◌==◌, if◌then◌else◌, Bool-cases,
  length, is_empty, Text, ℤ, pos, negsuc,
}
use screwlogger.Agent.Shipper.{healthy_flush_interval}

pub record Config : Type 0 where
  pub server_url : Text
  pub token : Text
  pub data_dir : Text
  pub idle_threshold_seconds : ℤ
  pub poll_interval : ℕ
  pub flush_interval : ℕ
  pub max_buffer_bytes : ℕ

-- The fields that the file may have: empty, or 0, if they are missing.
pub record ConfigFile : Type 0 where
  pub file_server_url : Text
  pub file_token : Text
  pub file_data_dir : Text
  pub file_idle_threshold : ℤ

-- The default of the threshold.
abbrev pub or_default : ℤ → ℤ
or_default (pos n) = if n == 0 then pos 180 else pos n
or_default (negsuc n) = negsuc n

-- `LoadConfig`, on a file that could be read and decoded.
unfoldable pub load_config : ConfigFile → Option Config
load_config f =
    if is_empty f.file_server_url || is_empty f.file_token || is_empty f.file_data_dir
    then none
    else some (record {
      server_url = f.file_server_url;
      token = f.file_token;
      data_dir = f.file_data_dir;
      idle_threshold_seconds = or_default f.file_idle_threshold;
      poll_interval = 1;
      flush_interval = healthy_flush_interval;
      max_buffer_bytes = 16 * 2 ^ 20;
    })

-- A configuration that is loaded has a token that is not empty.
pub load_config-token : (f : ConfigFile) (c : Config) → load_config f ≡ some c → 0 < length c.token
unfolding load_config
load_config-token f c e =
    elim (Bool-cases
      (is_empty f.file_server_url || is_empty f.file_token || is_empty f.file_data_dir)) [
        | inl t ↦ absurd (ground (arith, e, t))
        | inr t ↦ ground (arith, e, t)
      ]
