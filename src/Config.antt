-- ===== src/Config.antt =====
-- internal/config/config.go: the settings that the modelled services read.
use theme_park_nftengine.Prelude.{ℕ, String}

-- Times to live are seconds.
pub record RedisConfig : Type 0 where
  pub dedup_ttl_sec : ℕ
  pub grace_window_sec : ℕ
  pub agg_ttl_sec : ℕ

-- The defaults of the environment variables.
abbrev pub redis_defaults : RedisConfig
redis_defaults = record { dedup_ttl_sec = 300; grace_window_sec = 5; agg_ttl_sec = 172800 }

pub record GateConfig : Type 0 where
  pub hmac_secret : String
  pub qr_rotation_seconds : ℕ
  pub txn_check_fail_when : String

abbrev pub gate_defaults : GateConfig
gate_defaults = record {
  hmac_secret = "secret";
  qr_rotation_seconds = 30;
  txn_check_fail_when = "";
}

pub record KafkaConfig : Type 0 where
  pub consumer_max_retries : ℕ
  pub consumer_backoff_ms : ℕ

abbrev pub kafka_defaults : KafkaConfig
kafka_defaults = record { consumer_max_retries = 3; consumer_backoff_ms = 500 }
