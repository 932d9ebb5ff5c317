-- ===== src/Webhook/Field.antt =====
-- The errors of a validation: `field.Error`, `field.Path` and the objects that a webhook is given.
use pd_manager.Common.{ℕ, ℤ, String, Option, none, some, List, [], ◌∷◌}
use pd_manager.Api.{PdInferenceService}

-- `NewPath("a", "b")`, `.Child("c")` and `.Index(i)`, from the outermost element
pub data PathElement : Type 0 where
  child : String → PathElement
  index : ℕ → PathElement

abbrev pub FieldPath : Type 0
FieldPath = List PathElement

pub data FieldError : Type 0 where
  required : FieldPath → (detail : String) → FieldError
  invalid : FieldPath → (value detail : String) → FieldError
  invalid_number : FieldPath → (value : ℤ) → (detail : String) → FieldError
  forbidden : FieldPath → (detail : String) → FieldError

abbrev pub ErrorList : Type 0
ErrorList = List FieldError

-- What a webhook returns as its `error`: the failed type assertion on the object, or the aggregate
-- of the field errors.
pub data AdmissionError : Type 0 where
  wrong_type : (detail : String) → AdmissionError
  aggregate : ErrorList → AdmissionError

-- A `runtime.Object`: a PDInferenceService, or an object of the type that is named.
pub data RuntimeObject : Type 0 where
  service : PdInferenceService → RuntimeObject
  foreign : (type_name : String) → RuntimeObject

-- `if len(errs) > 0 { return errs.ToAggregate() }; return nil`
abbrev pub to_aggregate : ErrorList → Option AdmissionError
to_aggregate [] = none
to_aggregate (e ∷ errs) = some (aggregate (e ∷ errs))
