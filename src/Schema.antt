-- ===== src/Schema.antt =====
-- app/schemas/registry.py and the field lists of app/schemas/documents.py. Pydantic's
-- `model_fields` are modelled as far as the services read them: name, annotation, required or not.
use structured_data_extracto.Base.{
  String, Bool, true, false, List, [], ◌∷◌, ◌<>◌, ◌==◌, map, if◌then◌else◌,
}
use structured_data_extracto.Errors.{Error}
use structured_data_extracto.Exec.{Result, ok, err}

pub data DocType : Type 0 where
  invoice contract payslip receipt : DocType

pub data Annotation : Type 0 where
  text decimal date integer : Annotation
  list_of : String → Annotation

pub record FieldInfo : Type 0 where
  pub name : String
  pub annotation : Annotation
  pub required : Bool

abbrev need : String → Annotation → FieldInfo
need n a = record { name = n; annotation = a; required = true }

-- A field `T | None` with the default `None`.
abbrev optional : String → Annotation → FieldInfo
optional n a = record { name = n; annotation = a; required = false }

abbrev pub invoice_fields : List FieldInfo
invoice_fields =
    need "vendor_name" text
    ∷ optional "vendor_address" text
    ∷ need "invoice_number" text
    ∷ need "invoice_date" date
    ∷ optional "due_date" date
    ∷ need "subtotal" decimal
    ∷ optional "tax_amount" decimal
    ∷ need "total_amount" decimal
    ∷ need "currency" text
    ∷ need "line_items" (list_of "LineItem")
    ∷ optional "payment_terms" text
    ∷ []

abbrev pub contract_fields : List FieldInfo
contract_fields =
    need "parties" (list_of "Party")
    ∷ need "effective_date" date
    ∷ optional "termination_date" date
    ∷ optional "governing_law" text
    ∷ optional "payment_amount" decimal
    ∷ optional "payment_currency" text
    ∷ optional "notice_period_days" integer
    ∷ need "key_obligations" (list_of "str")
    ∷ []

abbrev pub payslip_fields : List FieldInfo
payslip_fields =
    need "employee_name" text
    ∷ need "employer_name" text
    ∷ need "pay_period_start" date
    ∷ need "pay_period_end" date
    ∷ need "gross_pay" decimal
    ∷ need "net_pay" decimal
    ∷ need "currency" text
    ∷ need "deductions" (list_of "Deduction")
    ∷ need "pay_date" date
    ∷ []

abbrev pub receipt_fields : List FieldInfo
receipt_fields =
    need "merchant_name" text
    ∷ optional "merchant_address" text
    ∷ optional "order_number" text
    ∷ optional "transaction_id" text
    ∷ need "receipt_date" date
    ∷ need "items" (list_of "LineItem")
    ∷ optional "subtotal" decimal
    ∷ optional "tax_amount" decimal
    ∷ need "total_amount" decimal
    ∷ need "currency" text
    ∷ optional "payment_method" text
    ∷ []

-- `schema.model_fields`
unfoldable pub model_fields : DocType → List FieldInfo
model_fields DocType.invoice = invoice_fields
model_fields DocType.contract = contract_fields
model_fields DocType.payslip = payslip_fields
model_fields DocType.receipt = receipt_fields

unfoldable pub field_names : DocType → List String
unfolding model_fields
field_names t = map (λ f. f.name) (model_fields t)

abbrev pub type_name : DocType → String
type_name DocType.invoice = "invoice"
type_name DocType.contract = "contract"
type_name DocType.payslip = "payslip"
type_name DocType.receipt = "receipt"

-- `SchemaRegistry.list_types`
abbrev pub list_types : List String
list_types = "invoice" ∷ "contract" ∷ "payslip" ∷ "receipt" ∷ []

-- `SchemaRegistry.get_schema`
unfoldable pub get_schema : String → Result DocType
get_schema t =
    if t == "invoice"
    then ok DocType.invoice
    else if t == "contract"
    then ok DocType.contract
    else if t == "payslip"
    then ok DocType.payslip
    else if t == "receipt"
    then ok DocType.receipt
    else err (Error.key_error ("Unknown document type: " <> t))

-- What `SchemaRegistry.get_tool` returns; `parameters` is the JSON schema of a model, which
-- pydantic generates, so it stands as the document type whose model it describes.
pub record Tool : Type 0 where
  pub name : String
  pub description : String
  pub parameters : DocType

abbrev tool_for : String → Result DocType → Result Tool
tool_for t (ok schema) = ok (record {
  name = "extract_" <> t;
  description = "Extract structured " <> t <> " data from document text";
  parameters = schema;
})
tool_for t (err e) = err e

unfoldable pub get_tool : String → Result Tool
unfolding get_schema
get_tool t = tool_for t (get_schema t)
