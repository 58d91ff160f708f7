-- ===== src/Startup/Started.antt =====
-- When app/core/lifecycle.py starts the application.
use structured_data_extracto.Base.{
  String, Bool, true, false, ◌||◌, List, [], ◌∷◌, ◌≡◌, ◌⊎◌, inl, inr, refl, any, Bool-cases,
  if◌then◌else◌,
}
use structured_data_extracto.Errors.{Error}
use structured_data_extracto.Exec.{Result, ok, err, lift, pure, ◌>>◌}
use structured_data_extracto.Settings.{LlmConfig, LlmApiKeyConfig}
use structured_data_extracto.Startup.{
  model_prefix_to_env_var, missing_key, lacks_key, validate_model, then_validate, validate_models,
  validate_llm_api_keys, Host, Running, on_host, or_no_pool, create_arq_pool, startup,
}

-- A key is lacking for one of the models, by one of the prefixes.
abbrev pub lacks_any : LlmApiKeyConfig → List String → Bool
lacks_any keys models = any (λ model. any (lacks_key keys model) model_prefix_to_env_var) models

abbrev IsMissing : Error → Type 0
IsMissing e = (model : String) × (env_var : String) × (e ≡ missing_key model env_var)

abbrev AreChecked : Bool → Result (Unit {0}) → Type 0
AreChecked lacking (ok _) = lacking ≡ false
AreChecked lacking (err e) = (lacking ≡ true) × IsMissing e

module _ (keys : LlmApiKeyConfig) where
  validate_model-AreChecked :
      (model : String) (table : List (String × String))
      → AreChecked (any (lacks_key keys model) table) (validate_model keys model table)
  unfolding validate_model
  validate_model-AreChecked model [] = refl
  validate_model-AreChecked model ((prefix, env_var) ∷ rest) =
      elim (Bool-cases (lacks_key keys model (prefix, env_var))) [
        | inl e ↦ rw e (refl, (model, env_var, refl))
        | inr e ↦ rw e (validate_model-AreChecked model rest)
      ]

  then_validate-AreChecked :
      (a b : Bool) (first later : Result (Unit {0}))
      → AreChecked a first
      → AreChecked b later
      → AreChecked (a || b) (then_validate keys first later)
  then_validate-AreChecked a b (ok _) later h k = rw h k
  then_validate-AreChecked a b (err e) later h k = (rw h.0 refl, h.1)

  validate_models-AreChecked :
      (models : List String) → AreChecked (lacks_any keys models) (validate_models keys models)
  unfolding validate_models
  validate_models-AreChecked [] = refl
  validate_models-AreChecked (model ∷ models) =
      then_validate-AreChecked (any (lacks_key keys model) model_prefix_to_env_var)
        (lacks_any keys models) (validate_model keys model model_prefix_to_env_var)
        (validate_models keys models) (validate_model-AreChecked model model_prefix_to_env_var)
        (validate_models-AreChecked models)

module _ (H : Host) (keys : LlmApiKeyConfig) (settings : LlmConfig) (has_app : Bool)
    (w : Running H) where
  abbrev lacking : Bool
  lacking = lacks_any keys (settings.extraction_model ∷ settings.classifier_model ∷ [])

  abbrev after_storage : Result (Unit {0}) × H.State
  after_storage = H.make_storage_dir w.host

  abbrev after_database : Result (Unit {0}) × H.State
  after_database = H.check_database after_storage.1

  abbrev after_redis : Result H.Pool × H.State
  after_redis = H.create_pool after_database.1

  -- The application that has started: Redis is what it could connect to, or nothing.
  abbrev started : Running H
  started =
      if has_app
      then record { host = after_redis.1; arq_pool = or_no_pool H after_redis.0 }
      else record { host = after_database.1; arq_pool = w.arq_pool }

  abbrev pub Starts : Result (Unit {0}) × Running H → Type 0
  Starts (ok _, w') =
      (lacking ≡ false) × (after_storage.0 ≡ ok tt) × (after_database.0 ≡ ok tt) × (w' ≡ started)
  Starts (err e, w') =
      (w'.arq_pool ≡ w.arq_pool)
      × (((lacking ≡ true) × IsMissing e × (w' ≡ w))
          ⊎ ((after_storage.0 ≡ err e) ⊎ (after_database.0 ≡ err e)))

  database-Starts :
      (d : Result (Unit {0}))
      → lacking ≡ false
      → after_storage.0 ≡ ok tt
      → after_database.0 ≡ d
      → Starts (
          ((λ (v : Running H). (d, record v { host = after_database.1 }))
              >> (if has_app then create_arq_pool H else pure tt))
            (record w { host = after_storage.1 }))
  unfolding create_arq_pool
  database-Starts (ok _) k st e = elim (Bool-cases has_app) [
    | inl a ↦ rw a (k, st, e, refl)
    | inr a ↦ rw a (k, st, e, refl)
  ]
  database-Starts (err x) k st e = (refl, inr (inr e))

  storage-Starts :
      (m : Result (Unit {0}))
      → lacking ≡ false
      → after_storage.0 ≡ m
      → Starts (
          ((λ (v : Running H). (m, record v { host = after_storage.1 }))
              >> (on_host H H.check_database >> (if has_app then create_arq_pool H else pure tt)))
            w)
  storage-Starts (ok _) k e = database-Starts after_database.0 k e refl
  storage-Starts (err x) k e = (refl, inr (inl e))

  validated-Starts :
      (v : Result (Unit {0}))
      → AreChecked lacking v
      → Starts (
          (lift v
              >> (on_host H H.make_storage_dir
                  >> (on_host H H.check_database
                      >> (if has_app then create_arq_pool H else pure tt))))
            w)
  validated-Starts (ok _) k = storage-Starts after_storage.0 k refl
  validated-Starts (err x) k = (refl, inl (k.0, k.1, refl))

  -- The application starts only if no configured model lacks the key that its prefix asks for, the folder
  -- of uploads is there and the database answers; then its job queue is the connection to Redis, or
  -- none if that failed, which never keeps it from starting. It does not start if a key is lacking, with
  -- nothing done and the model and the variable named, or with the exception of the folder or of the
  -- database; and its job queue is then as it was.
  pub startup-Starts : Starts (startup H keys settings has_app w)
  unfolding startup validate_llm_api_keys
  startup-Starts =
      validated-Starts (validate_llm_api_keys keys settings) (
        validate_models-AreChecked keys
          (settings.extraction_model ∷ settings.classifier_model ∷ []))
