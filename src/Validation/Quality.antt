-- ===== src/Validation/Quality.antt =====
-- The interface to pydantic, and the quality warnings of app/services/validation.py.
use structured_data_extracto.Base.{ℕ, String, Option, some, List, [], ◌∷◌, Dict, if◌then◌else◌}
use structured_data_extracto.Errors.{Error}
use structured_data_extracto.Exec.{Result, ok, err}
use structured_data_extracto.Value.{Value, ℤ, pos, eq_ℤ}
use structured_data_extracto.Schema.{DocType, Annotation}
use structured_data_extracto.Money.{
  Decimal, add_decimal, negate_decimal, sum_decimals, normalize_money,
}

-- An entry of `ValidationError.errors()`; a location is a list of names and positions.
pub data Location : Type 0 where
  key : String → Location
  index : ℕ → Location

pub record ErrorDetail : Type 0 where
  pub loc : List Location
  pub msg : String

pub data Validated (M : Type 0) : Type 0 where
  valid : M → Validated M
  invalid : List ErrorDetail → Validated M

-- What the services use of pydantic. `validate_python` is `TypeAdapter(annotation)`, with `none` for
-- `ValidationError`; `money` and `amounts` read an attribute, with `none` for `None`.
pub record Pydantic : Type 1 where
  pub Model : Type 0
  pub Attribute : Type 0
  pub none_value : Attribute
  pub model_validate : DocType → Dict Value → Validated Model
  pub model_construct : DocType → Dict Attribute → Model
  pub model_dump : Model → Dict Value
  pub attribute : Model → String → Attribute
  pub validate_python : Annotation → Value → Option Attribute
  pub money : Attribute → Option Decimal
  pub amounts : Attribute → Option (List Decimal)

abbrev pub invoice_warning : String
invoice_warning =
    "total_amount: does not equal subtotal plus tax_amount; document may include discounts, shipping, credits, or rounding"

abbrev pub payslip_warning : String
payslip_warning =
    "net_pay: does not equal gross_pay minus visible deductions; document may omit deductions or include adjustments"

abbrev pub receipt_warning : String
receipt_warning =
    "total_amount: does not equal subtotal plus tax_amount; receipt may include discounts, fees, credits, or rounding"

abbrev pub invalid_operation : Error
invalid_operation = Error.other "InvalidOperation"

-- Two amounts in hundredths; the expected one is normalized first.
abbrev pub compare_amounts : String → Option ℤ → Option ℤ → Result (List String)
compare_amounts warning (some expected) (some actual) =
    ok (if eq_ℤ actual expected then [] else warning ∷ [])
compare_amounts warning _ _ = err invalid_operation

-- `_invoice_warnings` and `_receipt_warnings`
unfoldable pub total_warnings :
    String → Option Decimal → Option Decimal → Option Decimal → Result (List String)
total_warnings warning (some subtotal) (some tax_amount) (some total_amount) =
    compare_amounts warning (normalize_money (add_decimal subtotal tax_amount))
      (normalize_money total_amount)
total_warnings warning _ _ _ = ok []

abbrev pub no_money : Decimal
no_money = record { coefficient = pos 0; scale = 0 }

-- `_payslip_warnings`
unfoldable pub pay_warnings :
    Option Decimal → Option Decimal → Option (List Decimal) → Result (List String)
pay_warnings (some gross_pay) (some net_pay) (some deductions) =
    compare_amounts payslip_warning
      (normalize_money (add_decimal gross_pay (negate_decimal (sum_decimals no_money deductions))))
      (normalize_money net_pay)
pay_warnings _ _ _ = ok []

module _ (P : Pydantic) where
  abbrev pub amount_of : P.Model → String → Option Decimal
  amount_of model name = P.money (P.attribute model name)

  -- `_quality_warnings`
  unfoldable pub quality_warnings : DocType → P.Model → Result (List String)
  quality_warnings DocType.invoice model =
      total_warnings invoice_warning (amount_of model "subtotal") (amount_of model "tax_amount")
        (amount_of model "total_amount")
  quality_warnings DocType.payslip model =
      pay_warnings (amount_of model "gross_pay") (amount_of model "net_pay")
        (P.amounts (P.attribute model "deductions"))
  quality_warnings DocType.receipt model =
      total_warnings receipt_warning (amount_of model "subtotal") (amount_of model "tax_amount")
        (amount_of model "total_amount")
  quality_warnings DocType.contract model = ok []
