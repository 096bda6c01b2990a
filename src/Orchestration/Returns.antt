-- ===== src/Orchestration/Returns.antt =====
-- The bound on what an executor returned, application/review_result.py.
use nokinc_factory.Prelude.{ℕ, ◌*◌, Option, none, some, leb, if◌then◌else◌}
use nokinc_factory.Review.Session.{InvocationReceipt, ExecutionStop}
use nokinc_factory.Review.Policy.{receipt_valid}
use nokinc_factory.Orchestration.Programs.{ReceiptField, OutputField, Returned}

abbrev pub max_output_bytes : ℕ
max_output_bytes = 128 * 1000

pub record Normalized : Type 0 where
  pub receipt : Option InvocationReceipt
  pub output : Option ℕ
  pub stop : Option ExecutionStop

abbrev pub stopped : Option InvocationReceipt → ExecutionStop → Normalized
stopped receipt stop = record { receipt = receipt; output = none; stop = some stop }

-- The receipt after its validation, absent when that failed.
unfoldable pub valid_receipt : ReceiptField → Option (Option InvocationReceipt)
unfolding receipt_valid
valid_receipt ReceiptField.no_receipt = some none
valid_receipt (ReceiptField.a_receipt r) = if receipt_valid (some r) then some (some r) else none
valid_receipt ReceiptField.not_a_receipt = none

module _ (utf8_length : ℕ → Option ℕ) where
  -- A text by the length of its UTF-8, which one with a lone surrogate has not.
  unfoldable pub bounded : Option InvocationReceipt → ℕ → Option ℕ → Normalized
  bounded receipt text none = stopped receipt ExecutionStop.execution_invalid
  bounded receipt text (some length) =
      if leb length max_output_bytes
      then record { receipt = receipt; output = some text; stop = none }
      else stopped receipt ExecutionStop.output_limit

  unfoldable pub normalize_output : Option InvocationReceipt → OutputField → Normalized
  unfolding bounded
  normalize_output receipt OutputField.no_output = record {
    receipt = receipt;
    output = none;
    stop = none;
  }
  normalize_output receipt (OutputField.a_report json) = bounded receipt json (utf8_length json)
  normalize_output receipt (OutputField.a_text text) = bounded receipt text (utf8_length text)
  normalize_output receipt OutputField.not_an_output =
      stopped receipt ExecutionStop.execution_invalid

  unfoldable pub normalize_fields : Option (Option InvocationReceipt) → OutputField → Normalized
  unfolding normalize_output
  normalize_fields none produced = stopped none ExecutionStop.execution_invalid
  normalize_fields (some receipt) produced = normalize_output receipt produced

  -- An executor that is unavailable stands for a result without receipt and output.
  unfoldable pub normalize_result : Returned → Normalized
  unfolding valid_receipt normalize_fields
  normalize_result Returned.unavailable = normalize_fields (some none) OutputField.no_output
  normalize_result (Returned.execution_result given produced) =
      normalize_fields (valid_receipt given) produced
  normalize_result Returned.not_a_result = stopped none ExecutionStop.execution_invalid
