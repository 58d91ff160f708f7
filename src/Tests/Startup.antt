-- ===== src/Tests/Startup.antt =====
-- A start with the settings' defaults (app/core/config.py) where Redis does not answer.
use structured_data_extracto.Base.{ℕ, suc, true, none, some}
use structured_data_extracto.Errors.{Error}
use structured_data_extracto.Exec.{ok, err}
use structured_data_extracto.Settings.{LlmApiKeyConfig, default_llm_config}
use structured_data_extracto.Startup.{Host, Running, startup}
use structured_data_extracto.Startup.Started.{Starts, startup-Starts}

abbrev host : Host
host = record {
  State = ℕ;
  Pool = ℕ;
  make_storage_dir = λ n. (ok tt, suc n);
  check_database = λ n. (ok tt, suc n);
  create_pool = λ n. (err (Error.queue "refused"), suc n);
  close_pool = λ p n. (ok tt, suc n);
  dispose_engine = λ n. (ok tt, suc n);
}

abbrev keys : LlmApiKeyConfig
keys = record { gemini_api_key = some "key"; anthropic_api_key = none; openai_api_key = none }

abbrev stopped : Running host
stopped = record { host = 0; arq_pool = none }

startup-Starts_example :
    Starts host keys default_llm_config true stopped
      (startup host keys default_llm_config true stopped)
startup-Starts_example = startup-Starts host keys default_llm_config true stopped
