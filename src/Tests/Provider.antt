-- ===== src/Tests/Provider.antt =====
-- A provider, a clock and a pydantic to run the services with. The provider answers its first call
-- with prose, and each later one with a tool call.
use structured_data_extracto.Base.{
  ℕ, zero, suc, ◌+◌, Bool, true, false, Option, none, some, [], ◌∷◌, ◌≢◌, refl, arith, Dict, get,
  has, or_else,
}
use structured_data_extracto.Errors.{Error}
use structured_data_extracto.Exec.{Result, ok}
use structured_data_extracto.Value.{Value, str}
use structured_data_extracto.Llm.{LlmClient, Meter}
use structured_data_extracto.Validation.Quality.{
  key, ErrorDetail, Validated, valid, invalid, Pydantic,
}
use structured_data_extracto.Processor.{Engine}
use structured_data_extracto.Processor.Tokens.{EngineMeter}

-- What the provider has counted, and how often its clock was read.
pub record Usage : Type 0 where
  pub input : ℕ
  pub output : ℕ
  pub calls : ℕ
  pub ticks : ℕ

abbrev pub unused : Usage
unused = record { input = 0; output = 0; calls = 0; ticks = 0 }

abbrev pub vendor : Dict Value
vendor = ("vendor_name", str "ACME") ∷ ("currency", str "USD") ∷ []

abbrev answer : ℕ → Option (Dict Value)
answer zero = none
answer (suc _) = some vendor

abbrev pub provider : LlmClient
provider = record {
  State = Usage;
  generate_text =
      λ model ms n s. (ok (record { content = "Invoice"; input_tokens = 7; output_tokens = 1 }), s);
  call_tool = λ q s. (
    ok (some (record { arguments = answer s.calls; input_tokens = 10; output_tokens = 4 })),
    record s { input = s.input + 10; output = s.output + 4; calls = s.calls + 1 },
  );
}

pub answered : {A : Type 0} (a : A) (e : Error) → Result.ok a ≢ Result.err e
answered a e p = ground arith

abbrev pub provider_meter : Meter provider
provider_meter = record {
  input = λ s. s.input;
  output = λ s. s.output;
  calls = λ s. s.calls;
  input_call = λ q s. refl;
  output_call = λ q s. refl;
  calls_call = λ q s. refl;
  own_errors = λ q s e. answered _ (Error.extraction e);
}

abbrev complaint : ErrorDetail
complaint = record { loc = key "invoice_number" ∷ []; msg = "Field required" }

abbrev pub complaints : Bool → Dict Value → Validated (Dict Value)
complaints true d = valid d
complaints false d = invalid (complaint ∷ [])

-- A pydantic that requires only the number of an invoice.
abbrev pub pydantic : Pydantic
pydantic = record {
  Model = Dict Value;
  Attribute = Value;
  none_value = Value.null;
  model_validate = λ t d. complaints (has d "invoice_number") d;
  model_construct = λ t d. d;
  model_dump = λ d. d;
  attribute = λ d name. or_else (get d name) Value.null;
  validate_python = λ a v. some v;
  money = λ v. none;
  amounts = λ v. none;
}

abbrev pub engine : Engine
engine = record {
  client = provider;
  now = λ s. (s.ticks, record s { ticks = s.ticks + 1 });
  pydantic = pydantic;
  model = "large";
  classifier_model = "small";
  max_retries = 2;
}

abbrev pub engine_meter : EngineMeter engine
engine_meter = record {
  meter = provider_meter;
  now_input = λ s. refl;
  now_output = λ s. refl;
  text_input = λ model ms n s. refl;
  text_output = λ model ms n s. refl;
}
