-- ===== src/Tests/Lifecycle.antt =====
-- A work item that runs from NEW to DONE, and the theorems on the lifecycle applied to it.
use nokinc_factory.Prelude.{◌≡◌, refl, true, List, [], ◌∷◌, some, any, ok, err, is_blank, is_space}
use nokinc_factory.Lifecycle.States.{
  WorkItemState, WorkItemState-discrete, state_eq, Transition, TransitionError, human_gates,
  allowed_from, lacks_approval, validate_against,
}
use nokinc_factory.Lifecycle.Check.{validate_against-twice}
use nokinc_factory.Lifecycle.Runs.{
  Run, Run-approved, Run-solution_approved, leaves, before_solution_ready,
}

-- The approval reference is the text "A".
abbrev moves : WorkItemState → WorkItemState → Transition
moves s t = record {
  work_item_id = 1;
  workflow_run_id = 2;
  transition_id = 3;
  expected_current = s;
  target = t;
  event_id = 4;
  actor = 5;
  approval_id = some (65 ∷ []);
  occurred_at = 6;
}

abbrev gate1 : Transition
gate1 = moves WorkItemState.business_ready WorkItemState.designing

passes : validate_against gate1 WorkItemState.business_ready ≡ ok tt
unfolding is_space is_blank WorkItemState-discrete human_gates allowed_from lacks_approval
    validate_against
passes = refl

validate_against-twice_example :
    validate_against gate1 WorkItemState.designing ≡ err TransitionError.stale_transition
validate_against-twice_example = validate_against-twice gate1 WorkItemState.business_ready passes

abbrev path : List Transition
path =
    moves WorkItemState.new_item WorkItemState.refining
    ∷ moves WorkItemState.refining WorkItemState.business_ready
    ∷ gate1
    ∷ moves WorkItemState.designing WorkItemState.solution_ready
    ∷ moves WorkItemState.solution_ready WorkItemState.implementing
    ∷ moves WorkItemState.implementing WorkItemState.dev_verifying
    ∷ moves WorkItemState.dev_verifying WorkItemState.dev_verified
    ∷ moves WorkItemState.dev_verified WorkItemState.preprod_verifying
    ∷ moves WorkItemState.preprod_verifying WorkItemState.preprod_verified
    ∷ moves WorkItemState.preprod_verified WorkItemState.releasing
    ∷ moves WorkItemState.releasing WorkItemState.done
    ∷ []

finishes : Run WorkItemState.new_item path WorkItemState.done
unfolding is_space is_blank WorkItemState-discrete human_gates allowed_from lacks_approval
    validate_against
finishes = Run.step (moves WorkItemState.new_item WorkItemState.refining) refl (
    Run.step (moves WorkItemState.refining WorkItemState.business_ready) refl (
      Run.step gate1 refl (
        Run.step (moves WorkItemState.designing WorkItemState.solution_ready) refl (
          Run.step (moves WorkItemState.solution_ready WorkItemState.implementing) refl (
            Run.step (moves WorkItemState.implementing WorkItemState.dev_verifying) refl (
              Run.step (moves WorkItemState.dev_verifying WorkItemState.dev_verified) refl (
                Run.step (moves WorkItemState.dev_verified WorkItemState.preprod_verifying) refl (
                  Run.step (moves WorkItemState.preprod_verifying WorkItemState.preprod_verified)
                    refl
                    (Run.step (moves WorkItemState.preprod_verified WorkItemState.releasing) refl (
                      Run.step (moves WorkItemState.releasing WorkItemState.done) refl
                        Run.stay))))))))))

Run-approved_example :
    (any (leaves WorkItemState.business_ready) path ≡ true)
    × (any (leaves WorkItemState.dev_verified) path ≡ true)
    × (any (leaves WorkItemState.preprod_verified) path ≡ true)
Run-approved_example = Run-approved path finishes

Run-solution_approved_example : any (leaves WorkItemState.solution_ready) path ≡ true
unfolding before_solution_ready WorkItemState-discrete
Run-solution_approved_example = Run-solution_approved finishes refl refl refl

-- A path that leaves the gate SOLUTION_READY out, by way of BLOCKED.
abbrev detour : List Transition
detour =
    moves WorkItemState.designing WorkItemState.blocked
    ∷ moves WorkItemState.blocked WorkItemState.implementing
    ∷ []

detours : Run WorkItemState.designing detour WorkItemState.implementing
unfolding is_space is_blank WorkItemState-discrete human_gates allowed_from lacks_approval
    validate_against
detours =
    Run.step (moves WorkItemState.designing WorkItemState.blocked) refl
      (Run.step (moves WorkItemState.blocked WorkItemState.implementing) refl Run.stay)
