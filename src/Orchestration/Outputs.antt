-- ===== src/Orchestration/Outputs.antt =====
-- What application/review_result.py keeps of a result.
use nokinc_factory.Prelude.{
  ◌≡◌, refl, sym, ap, ◌∙◌, ℕ, ◌≤◌, true, Option, none, some, leb, Bool-cases, inl, inr, arith,
}
use nokinc_factory.Review.Session.{InvocationReceipt}
use nokinc_factory.Review.Policy.{receipt_valid}
use nokinc_factory.Orchestration.Programs.{ReceiptField, OutputField, Returned}
use nokinc_factory.Orchestration.Returns.{
  Normalized, max_output_bytes, valid_receipt, bounded, normalize_output, normalize_fields,
  normalize_result,
}

-- A result with this receipt, whose output is there only if it fits and nothing stops the call.
abbrev pub IsKept : (ℕ → Option ℕ) → InvocationReceipt → Normalized → Type 0
IsKept utf8_length receipt n =
    (n.receipt ≡ some receipt)
    × ((text : ℕ)
        → n.output ≡ some text
        → (n.stop ≡ none)
          × (length : ℕ) × (utf8_length text ≡ some length)
          × (length ≤ max_output_bytes))

module _ (utf8_length : ℕ → Option ℕ) where
  bounded-IsKept :
      (receipt : InvocationReceipt) (text : ℕ) (length : Option ℕ)
      → utf8_length text ≡ length
      → IsKept utf8_length receipt (bounded utf8_length (some receipt) text length)
  unfolding bounded
  bounded-IsKept receipt text none e = (refl, λ t h. cc)
  bounded-IsKept receipt text (some length) e = elim (Bool-cases (leb length max_output_bytes)) [
    | inl on ↦ rw on (
      refl,
      λ t h.
          let same : text ≡ t = ground (arith, h) in
          (refl, length, ap utf8_length (sym same) ∙ e, ground arith),
    )
    | inr off ↦ rw off (refl, λ t h. cc)
  ]

  normalize_output-IsKept :
      (receipt : InvocationReceipt) (output : OutputField)
      → IsKept utf8_length receipt (normalize_output utf8_length (some receipt) output)
  unfolding normalize_output
  normalize_output-IsKept receipt OutputField.no_output = (refl, λ t h. cc)
  normalize_output-IsKept receipt (OutputField.a_report json) = bounded-IsKept receipt json _ refl
  normalize_output-IsKept receipt (OutputField.a_text text) = bounded-IsKept receipt text _ refl
  normalize_output-IsKept receipt OutputField.not_an_output = (refl, λ t h. cc)

  -- A valid receipt of a result is kept whatever its output is, and an output that is passed on
  -- comes without a stop and is at most 128,000 bytes long.
  pub normalize_result-IsKept :
      (receipt : InvocationReceipt) (output : OutputField)
      → receipt_valid (some receipt) ≡ true
      → IsKept utf8_length receipt (
          normalize_result utf8_length
            (Returned.execution_result (ReceiptField.a_receipt receipt) output))
  unfolding normalize_result normalize_fields valid_receipt
  normalize_result-IsKept receipt output valid = rw valid (normalize_output-IsKept receipt output)
