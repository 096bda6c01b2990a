-- ===== src/Lifecycle/Runs.antt =====
-- Runs of transitions that `validate_against` of domain/states.py accepts, each in the state that
-- the one before it led to.
use nokinc_factory.Prelude.{
  ◌≡◌, refl, ◌⊎◌, inl, inr, Bool, true, false, not, ◌&&◌, List, [], ◌∷◌, any, all, contains, ◌==◌,
  arith, ok,
}
use nokinc_factory.Lifecycle.States.{
  WorkItemState, state_eq, Transition, human_gates, allowed_from, lacks_approval, validate_against,
}
use nokinc_factory.Lifecycle.Check.{validate_against-IsApplicable}

pub data Run : WorkItemState → List Transition → WorkItemState → Type 0 where
  stay : {s : WorkItemState} → Run s [] s
  step :
      {s u : WorkItemState} (t : Transition) {ts : List Transition}
      → validate_against t s ≡ ok tt
      → Run t.target ts u
      → Run s (t ∷ ts) u

-- A transition that leaves a gate with an approval that is not blank.
abbrev pub leaves : WorkItemState → Transition → Bool
leaves gate t = t.expected_current == gate && not (lacks_approval t.approval_id)

-- The states that the table reaches from NEW without leaving the gate.
unfoldable before_business_ready : WorkItemState → Bool
before_business_ready s =
    contains
      (WorkItemState.new_item ∷ WorkItemState.refining ∷ WorkItemState.business_ready
        ∷ WorkItemState.rejected ∷ [])
      s

unfoldable before_dev_verified : WorkItemState → Bool
before_dev_verified s = not (
    contains
      (WorkItemState.preprod_verifying ∷ WorkItemState.preprod_verified ∷ WorkItemState.releasing
        ∷ WorkItemState.done ∷ WorkItemState.rolled_back ∷ [])
      s)

unfoldable before_preprod_verified : WorkItemState → Bool
before_preprod_verified s =
    not (contains (WorkItemState.releasing ∷ WorkItemState.done ∷ WorkItemState.rolled_back ∷ []) s)

-- The table leads out of a set of states only from the gate.
IsGuarded : WorkItemState → (WorkItemState → Bool) → Type 0
IsGuarded gate before =
    (s : WorkItemState) → before s ≡ true → (s ≡ gate) ⊎ (all before (allowed_from s) ≡ true)

all-contains :
    (p : WorkItemState → Bool) (xs : List WorkItemState) (x : WorkItemState)
    → all p xs ≡ true
    → contains xs x ≡ true
    → p x ≡ true
all-contains p [] x h e = cc
all-contains p (y ∷ ys) x h e = ground (arith, all-contains p ys x)

-- A run out of the set leaves the gate with an approval.
Run-leaves :
    (gate : WorkItemState) (before : WorkItemState → Bool)
    → IsGuarded gate before
    → contains human_gates gate ≡ true
    → {s u : WorkItemState} {ts : List Transition} → Run s ts u
    → before s ≡ true
    → before u ≡ false
    → any (leaves gate) ts ≡ true
unfolding IsGuarded
Run-leaves gate before guarded is_gate stay h e = cc
Run-leaves gate before guarded is_gate (step {s} t {ts} ok_step rest) h e =
    let a = (validate_against-IsApplicable t s).0 ok_step in
    let now = a.expected in
    let permitted = a.permitted in
    let approved = a.approved in
    elim (guarded s h) [
      | inl at ↦ ground arith
      | inr closed ↦
          let later =
            Run-leaves gate before guarded is_gate rest
              (all-contains before (allowed_from s) t.target closed permitted) e in
          ground (arith, later)
    ]

business_ready-IsGuarded : IsGuarded WorkItemState.business_ready before_business_ready
unfolding IsGuarded before_business_ready allowed_from
business_ready-IsGuarded s h = ground arith

dev_verified-IsGuarded : IsGuarded WorkItemState.dev_verified before_dev_verified
unfolding IsGuarded before_dev_verified allowed_from
dev_verified-IsGuarded s h = ground arith

preprod_verified-IsGuarded : IsGuarded WorkItemState.preprod_verified before_preprod_verified
unfolding IsGuarded before_preprod_verified allowed_from
preprod_verified-IsGuarded s h = ground arith

-- Every run of accepted transitions from NEW to DONE leaves BUSINESS_READY, DEV_VERIFIED and
-- PREPROD_VERIFIED, each by a transition with an approval that is not blank.
pub Run-approved :
    (ts : List Transition)
    → Run WorkItemState.new_item ts WorkItemState.done
    → (any (leaves WorkItemState.business_ready) ts ≡ true)
      × (any (leaves WorkItemState.dev_verified) ts ≡ true)
      × (any (leaves WorkItemState.preprod_verified) ts ≡ true)
unfolding before_business_ready before_dev_verified before_preprod_verified human_gates
Run-approved ts r = (
  Run-leaves WorkItemState.business_ready before_business_ready business_ready-IsGuarded
      (ground arith) r (ground arith) (ground arith),
  Run-leaves WorkItemState.dev_verified before_dev_verified dev_verified-IsGuarded (ground arith) r
      (ground arith) (ground arith),
  Run-leaves WorkItemState.preprod_verified before_preprod_verified preprod_verified-IsGuarded
      (ground arith) r (ground arith) (ground arith),
)

-- A run of accepted transitions that starts in DONE or in REJECTED has no transition.
pub Run-final :
    (s u : WorkItemState) (ts : List Transition)
    → (s ≡ WorkItemState.done) ⊎ (s ≡ WorkItemState.rejected)
    → Run s ts u
    → ts ≡ []
unfolding allowed_from
Run-final s u ts f stay = refl
Run-final s u ts f (step t accepted rest) =
    let permitted = ((validate_against-IsApplicable t s).0 accepted).permitted in ground arith

-- The states that the table reaches from NEW without leaving SOLUTION_READY or passing BLOCKED.
unfoldable pub before_solution_ready : WorkItemState → Bool
before_solution_ready s =
    contains
      (WorkItemState.new_item ∷ WorkItemState.refining ∷ WorkItemState.business_ready
        ∷ WorkItemState.designing ∷ WorkItemState.solution_ready ∷ WorkItemState.rejected ∷ [])
      s

-- The table leads out of the states before the gate only from the gate, or to BLOCKED.
solution_ready_guarded :
    (s t : WorkItemState)
    → before_solution_ready s ≡ true
    → contains (allowed_from s) t ≡ true
    → t == WorkItemState.blocked ≡ false
    → (s ≡ WorkItemState.solution_ready) ⊎ (before_solution_ready t ≡ true)
unfolding before_solution_ready allowed_from
solution_ready_guarded s t h e n = ground arith

abbrev pub blocks : Transition → Bool
blocks t = t.target == WorkItemState.blocked

-- Every run of accepted transitions without one to BLOCKED from NEW, REFINING, BUSINESS_READY,
-- DESIGNING, SOLUTION_READY or REJECTED to a state that is none of these leaves SOLUTION_READY by
-- a transition with an approval that is not blank.
pub Run-solution_approved :
    {s u : WorkItemState} {ts : List Transition}
    → Run s ts u
    → before_solution_ready s ≡ true
    → before_solution_ready u ≡ false
    → any blocks ts ≡ false
    → any (leaves WorkItemState.solution_ready) ts ≡ true
unfolding human_gates
Run-solution_approved stay h e b = cc
Run-solution_approved (step {s} t accepted rest) h e b =
    let a = (validate_against-IsApplicable t s).0 accepted in
    let now = a.expected in
    let permitted = a.permitted in
    let approved = a.approved in
    elim (solution_ready_guarded s t.target h permitted (ground arith)) [
      | inl at ↦ ground arith
      | inr before ↦
          let later = Run-solution_approved rest before e (ground arith) in ground (arith, later)
    ]
