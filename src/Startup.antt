-- ===== src/Startup.antt =====
-- app/core/lifecycle.py: what the application does as it starts and as it stops. The host is what it
-- calls: the folder of uploads, the database and Redis.
pub mod Started
use structured_data_extracto.Base.{
  ℕ, String, Bool, true, false, not, ◌&&◌, ◌<>◌, ◌==◌, Option, none, some, List, [], ◌∷◌, codes,
  has_prefix, if◌then◌else◌,
}
use structured_data_extracto.Errors.{Error}
use structured_data_extracto.Exec.{Result, ok, err, Exec, pure, lift, modify, ◌>>=◌, ◌>>◌}
use structured_data_extracto.Settings.{LlmConfig, LlmApiKeyConfig}

-- `_MODEL_PREFIX_TO_ENV_VAR`
abbrev pub model_prefix_to_env_var : List (String × String)
model_prefix_to_env_var =
    ("gemini/", "GEMINI_API_KEY")
    ∷ ("anthropic/", "ANTHROPIC_API_KEY")
    ∷ ("openai/", "OPENAI_API_KEY")
    ∷ ("gpt-", "OPENAI_API_KEY")
    ∷ []

-- `bool(getattr(keys, env_var))`
abbrev pub is_set : Option String → Bool
is_set none = false
is_set (some key) = not (key == "")

abbrev pub has_key : LlmApiKeyConfig → String → Bool
has_key keys env_var =
    if env_var == "GEMINI_API_KEY"
    then is_set keys.gemini_api_key
    else if env_var == "ANTHROPIC_API_KEY"
    then is_set keys.anthropic_api_key
    else is_set keys.openai_api_key

abbrev pub missing_key : String → String → Error
missing_key model env_var =
    Error.runtime
      ("Model '" <> model <> "' requires environment variable '" <> env_var <> "' to be set.")

module _ (keys : LlmApiKeyConfig) where
  abbrev pub lacks_key : String → String × String → Bool
  lacks_key model (prefix, env_var) =
      has_prefix (codes model) (codes prefix) && not (has_key keys env_var)

  -- The inner loop of `validate_llm_api_keys`.
  unfoldable pub validate_model : String → List (String × String) → Result (Unit {0})
  validate_model model [] = ok tt
  validate_model model ((prefix, env_var) ∷ rest) =
      let later = validate_model model rest in
      if lacks_key model (prefix, env_var) then err (missing_key model env_var) else later

  abbrev pub then_validate : Result (Unit {0}) → Result (Unit {0}) → Result (Unit {0})
  then_validate (ok _) later = later
  then_validate (err e) later = err e

  unfoldable pub validate_models : List String → Result (Unit {0})
  validate_models [] = ok tt
  validate_models (model ∷ models) =
      then_validate (validate_model model model_prefix_to_env_var) (validate_models models)

  -- `validate_llm_api_keys`. The set of the models has no order; here the model of the extraction is first.
  unfoldable pub validate_llm_api_keys : LlmConfig → Result (Unit {0})
  validate_llm_api_keys settings =
      validate_models (settings.extraction_model ∷ settings.classifier_model ∷ [])

-- `check_database` runs the health query within its time.
pub record Host : Type 1 where
  pub State : Type 0
  pub Pool : Type 0
  pub make_storage_dir : Exec State (Unit {0})
  pub check_database : Exec State (Unit {0})
  pub create_pool : Exec State Pool
  pub close_pool : Pool → Exec State (Unit {0})
  pub dispose_engine : Exec State (Unit {0})

-- The host with `app.state.arq_pool`.
pub record Running (H : Host) : Type 0 where
  pub host : H.State
  pub arq_pool : Option H.Pool

module _ (H : Host) where
  abbrev pub on_host {ℓ} : {A : Type ℓ} → Exec H.State A → Exec (Running H) A
  on_host m w = let (r, s) = m w.host in (r, record w { host = s })

  abbrev pub or_no_pool : Result H.Pool → Option H.Pool
  or_no_pool (ok pool) = some pool
  or_no_pool (err e) = none

  -- `app.state.arq_pool = await _create_arq_pool()`
  unfoldable pub create_arq_pool : Exec (Running H) (Unit {0})
  create_arq_pool w =
      let (r, s) = H.create_pool w.host in (ok tt, record { host = s; arq_pool = or_no_pool r })

  -- `startup`, which logs what is raised and raises it again.
  unfoldable pub startup : LlmApiKeyConfig → LlmConfig → Bool → Exec (Running H) (Unit {0})
  startup keys settings has_app = do
    lift (validate_llm_api_keys keys settings)
    on_host H.make_storage_dir
    on_host H.check_database
    (if has_app then create_arq_pool else pure tt)

  abbrev pub close_arq_pool : Option H.Pool → Exec (Running H) (Unit {0})
  close_arq_pool none = pure tt
  close_arq_pool (some pool) = on_host (H.close_pool pool)

  -- `shutdown`
  unfoldable pub shutdown : Bool → Exec (Running H) (Unit {0})
  shutdown has_app = do
    (if has_app
        then (do (λ w. close_arq_pool w.arq_pool w); modify (λ w. record w { arq_pool = none }))
        else pure tt)
    on_host H.dispose_engine
