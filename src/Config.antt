-- ===== src/Config.antt =====
-- src/config.rs: the configuration that the server reads at its start.
pub mod Load
pub mod Loaded
use gptload_rs.Prelude.{ℕ, Option, List}
use gptload_rs.Prelude.Text.{Str}

-- Cooldowns in milliseconds, and the largest exponent of the backoff.
pub record BanConfig : Type 0 where
  pub rate_limit_ms : ℕ
  pub server_error_ms : ℕ
  pub network_error_ms : ℕ
  pub auth_error_ms : ℕ
  pub max_backoff_pow : ℕ

pub record UpstreamConfig : Type 0 where
  pub id : Str
  pub base_url : Str
  pub weight : Option ℕ

-- `Config`, without the address, the thread count, the timeout and the directory, which are passed
-- on as they are.
pub record Config : Type 0 where
  pub max_retries : Option ℕ
  pub retry_status_codes : Option (List ℕ)
  pub proxy_tokens : Option (List Str)
  pub admin_tokens : List Str
  pub usage_inject_upstreams : Option (List Str)
  pub ban : BanConfig
  pub upstreams : List UpstreamConfig
