-- ===== src/Review/Reason.antt =====
-- `ReviewReason` of domain/review_session.py: why a review unit was refused, stopped or is not yet
-- eligible.
use nokinc_factory.Prelude.{
  ℕ, zero, suc, List, [], ◌∷◌, Option, none, some, ◌≡◌, refl, ap, ◌↔◌, Bool, true, Eq, nat_beq,
  nat_beq_iff,
}

pub data ReviewReason : Type 0 where
  artifact_drift authorization_revoked binding_mismatch budget_overrun context_gap contract_gap
        cost_limit critical execution_invalid identity_unavailable incomplete_criteria
        invalid_closure invalid_repair invocation_limit malformed_report mandatory_criteria
        min_reviews missing_evidence no_progress open_blockers output_limit pending receipt_mismatch
        receipt_unavailable repair_limit repeated_failure replay review_escalated review_limit
        time_window token_limit unreviewed_artifact unsupported_verdict :
      ReviewReason

-- The place of a reason among the sorted names, by which `sorted` orders them.
abbrev pub code : ReviewReason → ℕ
code artifact_drift = 0
code authorization_revoked = 1
code binding_mismatch = 2
code budget_overrun = 3
code context_gap = 4
code contract_gap = 5
code cost_limit = 6
code critical = 7
code execution_invalid = 8
code identity_unavailable = 9
code incomplete_criteria = 10
code invalid_closure = 11
code invalid_repair = 12
code invocation_limit = 13
code malformed_report = 14
code mandatory_criteria = 15
code min_reviews = 16
code missing_evidence = 17
code no_progress = 18
code open_blockers = 19
code output_limit = 20
code pending = 21
code receipt_mismatch = 22
code receipt_unavailable = 23
code repair_limit = 24
code repeated_failure = 25
code replay = 26
code review_escalated = 27
code review_limit = 28
code time_window = 29
code token_limit = 30
code unreviewed_artifact = 31
code unsupported_verdict = 32

abbrev reasons : List ReviewReason
reasons =
    artifact_drift ∷ authorization_revoked ∷ binding_mismatch ∷ budget_overrun ∷ context_gap
    ∷ contract_gap ∷ cost_limit ∷ critical ∷ execution_invalid ∷ identity_unavailable
    ∷ incomplete_criteria ∷ invalid_closure ∷ invalid_repair ∷ invocation_limit ∷ malformed_report
    ∷ mandatory_criteria ∷ min_reviews ∷ missing_evidence ∷ no_progress ∷ open_blockers
    ∷ output_limit ∷ pending ∷ receipt_mismatch ∷ receipt_unavailable ∷ repair_limit
    ∷ repeated_failure ∷ replay ∷ review_escalated ∷ review_limit ∷ time_window ∷ token_limit
    ∷ unreviewed_artifact ∷ unsupported_verdict ∷ []

abbrev nth : List ReviewReason → ℕ → Option ReviewReason
nth [] n = none
nth (r ∷ rs) zero = some r
nth (r ∷ rs) (suc n) = nth rs n

reason_of : ℕ → Option ReviewReason
reason_of = nth reasons

reason_of-code : (r : ReviewReason) → reason_of (code r) ≡ some r
unfolding reason_of
reason_of-code artifact_drift = refl
reason_of-code authorization_revoked = refl
reason_of-code binding_mismatch = refl
reason_of-code budget_overrun = refl
reason_of-code context_gap = refl
reason_of-code contract_gap = refl
reason_of-code cost_limit = refl
reason_of-code critical = refl
reason_of-code execution_invalid = refl
reason_of-code identity_unavailable = refl
reason_of-code incomplete_criteria = refl
reason_of-code invalid_closure = refl
reason_of-code invalid_repair = refl
reason_of-code invocation_limit = refl
reason_of-code malformed_report = refl
reason_of-code mandatory_criteria = refl
reason_of-code min_reviews = refl
reason_of-code missing_evidence = refl
reason_of-code no_progress = refl
reason_of-code open_blockers = refl
reason_of-code output_limit = refl
reason_of-code pending = refl
reason_of-code receipt_mismatch = refl
reason_of-code receipt_unavailable = refl
reason_of-code repair_limit = refl
reason_of-code repeated_failure = refl
reason_of-code replay = refl
reason_of-code review_escalated = refl
reason_of-code review_limit = refl
reason_of-code time_window = refl
reason_of-code token_limit = refl
reason_of-code unreviewed_artifact = refl
reason_of-code unsupported_verdict = refl

-- Two reasons with one name are one reason.
pub code_injective : (r s : ReviewReason) → code r ≡ code s → r ≡ s
code_injective r s e = cc (reason_of-code r, reason_of-code s, ap reason_of e)

abbrev pub reason_beq : ReviewReason → ReviewReason → Bool
reason_beq r s = nat_beq (code r) (code s)

pub reason_beq_iff : (r s : ReviewReason) → (reason_beq r s ≡ true) ↔ (r ≡ s)
reason_beq_iff r s = (
  (λ h. code_injective r s ((nat_beq_iff (code r) (code s)).0 h)),
  (λ e. (nat_beq_iff (code r) (code s)).1 (ap code e)),
)

instance abbrev pub reason_eq : Eq ReviewReason
reason_eq = record { beq = reason_beq; beq_iff = reason_beq_iff }
