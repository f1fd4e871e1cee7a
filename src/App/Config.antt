-- ===== src/App/Config.antt =====
-- backend/app/config.py: the settings with their defaults, and what each part reads of them.
use orca_validator.Prelude.{ℕ, Bool, false, [], Text, lit}
use orca_validator.Pipeline.Environment.{Settings}
use orca_validator.Llm.Chat.{ChatSettings}
use orca_validator.Api.Documents.{ApiSettings}

pub record Config : Type 0 where
  pub database_url : Text
  pub database_pool_size : ℕ
  pub database_max_overflow : ℕ
  pub database_pool_timeout : ℕ
  pub redis_url : Text
  pub machines_dir : Text
  pub worker_concurrency : ℕ
  pub use_redis_queue : Bool
  pub storage_dir : Text
  pub api_key : Text
  pub ocr_dpi : ℕ
  pub extractor : Text
  pub together_api_key : Text
  pub together_model : Text
  pub together_base_url : Text
  pub together_daily_token_budget : ℕ
  pub parser_url : Text
  pub environment : Text

-- The settings where the environment gives the two that have no default.
abbrev pub default_config : Text → Text → Config
default_config database_url api_key = record {
  database_url = database_url;
  database_pool_size = 10;
  database_max_overflow = 10;
  database_pool_timeout = 30;
  redis_url = lit "redis://redis:6379/0";
  machines_dir = lit "machines";
  worker_concurrency = 2;
  use_redis_queue = false;
  storage_dir = lit "data/blobs";
  api_key = api_key;
  ocr_dpi = 200;
  extractor = lit "deterministic";
  together_api_key = [];
  together_model = lit "meta-llama/Llama-3.3-70B-Instruct-Turbo";
  together_base_url = lit "https://api.together.xyz/v1";
  together_daily_token_budget = 2000000;
  parser_url = [];
  environment = lit "production";
}

-- What the pipeline, the model's client and the endpoints read.
abbrev pub pipeline_settings : Config → Settings
pipeline_settings c = record {
  ocr_dpi = c.ocr_dpi;
  extractor = c.extractor;
  together_api_key = c.together_api_key;
}

abbrev pub chat_settings : Config → ChatSettings
chat_settings c = record {
  together_api_key = c.together_api_key;
  daily_token_budget = c.together_daily_token_budget;
}

abbrev pub api_settings : Config → ApiSettings
api_settings c = record { api_key = c.api_key; use_redis_queue = c.use_redis_queue }
