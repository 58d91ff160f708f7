-- ===== src/Settings.antt =====
-- app/core/config.py: the settings with their defaults. pydantic-settings reads the environment over them;
-- URLs and paths stand as they are printed.
use structured_data_extracto.Base.{
  ℕ, ◌*◌, String, Bool, true, false, Option, none, some, List, [], ◌∷◌, Dict,
}
use structured_data_extracto.Errors.{Error}
use structured_data_extracto.Exec.{Result, ok, err}
use structured_data_extracto.Value.{ℤ, pos}
use structured_data_extracto.Costs.{ModelTokenPrice}

-- `AppConfig`
pub record AppConfig : Type 0 where
  pub environment : String
  pub project_name : String
  pub version : String
  pub api_v1_prefix : String
  pub cors_origins : List String
  pub cors_allow_credentials : Bool
  pub database_url : Option String
  pub storage_backend : String
  pub storage_local_dir : String
  pub db_pool_pre_ping : Bool
  pub db_pool_size : ℕ
  pub db_max_overflow : ℕ
  pub db_pool_recycle : ℤ
  pub db_echo : Bool
  pub max_upload_size_bytes : ℕ

abbrev pub default_app_config : AppConfig
default_app_config = record {
  environment = "local";
  project_name = "Structured Data Extractor";
  version = "0.1.0";
  api_v1_prefix = "/api/v1";
  cors_origins = "*" ∷ [];
  cors_allow_credentials = false;
  database_url = none;
  storage_backend = "local";
  storage_local_dir = "./uploads";
  db_pool_pre_ping = true;
  db_pool_size = 5;
  db_max_overflow = 10;
  db_pool_recycle = pos 1800;
  db_echo = false;
  max_upload_size_bytes = 25 * 1024 * 1024;
}

abbrev pub or_no_database : Option String → Result String
or_no_database (some url) = ok url
or_no_database none = err (Error.runtime "DATABASE_URL must be configured.")

-- `get_database_url`
unfoldable pub get_database_url : AppConfig → Result String
get_database_url settings = or_no_database settings.database_url

-- `LLMConfig`
pub record LlmConfig : Type 0 where
  pub extraction_model : String
  pub classifier_model : String
  pub max_retries : ℕ

abbrev pub default_llm_config : LlmConfig
default_llm_config = record {
  extraction_model = "gemini/gemini-2.5-flash";
  classifier_model = "gemini/gemini-2.5-flash";
  max_retries = 2;
}

-- `LLMAPIKeyConfig`
pub record LlmApiKeyConfig : Type 0 where
  pub gemini_api_key : Option String
  pub anthropic_api_key : Option String
  pub openai_api_key : Option String

-- Prices of an input and an output token, by their digits and how many follow the point.
abbrev token_price : ℕ → ℕ → ℕ → ModelTokenPrice
token_price scale input output = record {
  input_token_price_usd = record { coefficient = pos input; scale = scale };
  output_token_price_usd = record { coefficient = pos output; scale = scale };
}

-- `DEFAULT_MODEL_TOKEN_PRICES_USD`
abbrev pub default_model_token_prices_usd : Dict ModelTokenPrice
default_model_token_prices_usd =
    ("gemini/gemini-2.5-flash", token_price 7 3 25)
    ∷ ("openai/gpt-4.1-mini", token_price 7 4 16)
    ∷ ("anthropic/claude-haiku-4.5", token_price 6 1 5)
    ∷ ("anthropic/claude-haiku-4-5", token_price 6 1 5)
    ∷ []
