-- ===== src/Lifecycle/Check.antt =====
-- Which transitions `Transition.validate_against` of domain/states.py accepts.
use nokinc_factory.Prelude.{◌≡◌, ◌↔◌, true, false, contains, arith, ok, err}
use nokinc_factory.Lifecycle.States.{
  WorkItemState, state_eq, Transition, TransitionError, human_gates, allowed_from, lacks_approval,
  validate_against,
}

-- What a transition must have to be applied to a state.
pub record IsApplicable (t : Transition) (actual : WorkItemState) : Type 0 where
  pub expected : actual ≡ t.expected_current
  pub permitted : contains (allowed_from actual) t.target ≡ true
  pub approved : contains human_gates actual ≡ true → lacks_approval t.approval_id ≡ false

-- A transition is accepted in a state exactly when it expects that state, the table permits its
-- target from there, and, if the state is a human gate, it names an approval that is not blank.
pub validate_against-IsApplicable :
    (t : Transition) (actual : WorkItemState)
    → (validate_against t actual ≡ ok tt) ↔ IsApplicable t actual
unfolding validate_against
validate_against-IsApplicable t actual = (
  (λ h. record { expected = ground arith; permitted = ground arith; approved = λ g. ground arith }),
  (λ a.
      let same = a.expected in
      let there = a.permitted in let approved = a.approved in ground arith),
)

no_loop : (s : WorkItemState) → contains (allowed_from s) s ≡ false
unfolding allowed_from
no_loop s = ground arith

-- A transition that was accepted in a state is refused as stale in the state that it led to.
pub validate_against-twice :
    (t : Transition) (actual : WorkItemState)
    → validate_against t actual ≡ ok tt
    → validate_against t t.target ≡ err TransitionError.stale_transition
unfolding validate_against
validate_against-twice t actual h = ground (arith, no_loop t.target)
