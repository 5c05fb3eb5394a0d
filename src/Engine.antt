-- ===== src/Engine.antt =====
-- pkg/engine/types.go: the errors of a plan's execution, and what they carry of Go's error chains.
use kudo.Prelude.{String, Bool, true, false, [], ◌∷◌, concat}

-- Which `ExecutionError` stands in the chain of an error, with its event's name. Go's `errors.As`
-- finds one that was stored as a value. It does not find one that was stored as a pointer.
pub data Wrapper : Type 0 where
  plain : Wrapper
  by_value by_pointer : String → Wrapper

-- `text` is what the method `Error` returns; `fatal` is `errors.Is(err, ErrFatalExecution)`.
pub record Error : Type 0 where
  pub text : String
  pub fatal : Bool
  pub wrapper : Wrapper

abbrev pub plain_error : String → Error
plain_error text = record { text = text; fatal = false; wrapper = plain }

-- An error that wraps `ErrFatalExecution`, whose text is "fatal error: ".
abbrev pub fatal_error_with : String → Error
fatal_error_with text = record { text = text; fatal = true; wrapper = plain }

-- `ExecutionError{Err: err, EventName: event}`, whose `Unwrap` gives `err`.
unfoldable pub execution_error : Error → String → Error
execution_error e event = record {
  text = concat ("Error during execution: " ∷ e.text ∷ []);
  fatal = e.fatal;
  wrapper = by_value event;
}

-- `&ExecutionError{Err: err, EventName: event}`.
unfoldable pub execution_error_pointer : Error → String → Error
execution_error_pointer e event = record {
  text = concat ("Error during execution: " ∷ e.text ∷ []);
  fatal = e.fatal;
  wrapper = by_pointer event;
}

-- `errors.As(err, &exErr)` for a variable `exErr` of type `ExecutionError`: the event's name.
abbrev pub as_execution_error : Wrapper → Bool
as_execution_error plain = false
as_execution_error (by_value event) = true
as_execution_error (by_pointer event) = false

pub record Metadata : Type 0 where
  pub instance_name : String
  pub instance_namespace : String
  pub operator_name : String
  pub operator_version_name : String
  pub operator_version : String
  pub app_version : String
