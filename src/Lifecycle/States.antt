-- ===== src/Lifecycle/States.antt =====
-- The states and transitions of domain/states.py. Identifiers are numbers; the approval reference
-- is text, because its blankness decides.
use nokinc_factory.Prelude.{
  ℕ, Bool, true, not, ◌&&◌, List, [], ◌∷◌, Option, none, some, Text, is_blank, contains, Eq, ◌==◌,
  eq_of_discrete, Result, require, ◌>>◌,
}

pub data WorkItemState : Type 0 where
  new_item refining business_ready designing solution_ready : WorkItemState
  implementing dev_verifying dev_verified preprod_verifying preprod_verified : WorkItemState
  releasing done blocked rejected rolled_back : WorkItemState

unfoldable pub WorkItemState-discrete : Discrete WorkItemState
WorkItemState-discrete = hlevel

instance abbrev pub state_eq : Eq WorkItemState
state_eq = eq_of_discrete WorkItemState-discrete

-- `HUMAN_GATES`.
unfoldable pub human_gates : List WorkItemState
human_gates =
    WorkItemState.business_ready ∷ WorkItemState.solution_ready ∷ WorkItemState.dev_verified
    ∷ WorkItemState.preprod_verified ∷ []

-- `_ALLOWED`, and `allowed_from`, which looks it up.
unfoldable pub allowed_from : WorkItemState → List WorkItemState
allowed_from WorkItemState.new_item = WorkItemState.refining ∷ WorkItemState.rejected ∷ []
allowed_from WorkItemState.refining = WorkItemState.business_ready ∷ WorkItemState.rejected ∷ []
allowed_from WorkItemState.business_ready =
    WorkItemState.designing ∷ WorkItemState.refining ∷ WorkItemState.rejected ∷ []
allowed_from WorkItemState.designing = WorkItemState.solution_ready ∷ WorkItemState.blocked ∷ []
allowed_from WorkItemState.solution_ready =
    WorkItemState.implementing ∷ WorkItemState.designing ∷ WorkItemState.rejected ∷ []
allowed_from WorkItemState.implementing =
    WorkItemState.dev_verifying ∷ WorkItemState.blocked ∷ WorkItemState.solution_ready ∷ []
allowed_from WorkItemState.dev_verifying =
    WorkItemState.dev_verified ∷ WorkItemState.implementing ∷ []
allowed_from WorkItemState.dev_verified =
    WorkItemState.preprod_verifying ∷ WorkItemState.implementing ∷ []
allowed_from WorkItemState.preprod_verifying =
    WorkItemState.preprod_verified ∷ WorkItemState.implementing ∷ []
allowed_from WorkItemState.preprod_verified =
    WorkItemState.releasing ∷ WorkItemState.implementing ∷ []
allowed_from WorkItemState.releasing = WorkItemState.done ∷ WorkItemState.rolled_back ∷ []
allowed_from WorkItemState.blocked =
    WorkItemState.refining ∷ WorkItemState.designing ∷ WorkItemState.implementing
    ∷ WorkItemState.rejected ∷ []
allowed_from WorkItemState.done = []
allowed_from WorkItemState.rejected = []
allowed_from WorkItemState.rolled_back = WorkItemState.implementing ∷ []

pub record Transition : Type 0 where
  pub work_item_id : ℕ
  pub workflow_run_id : ℕ
  pub transition_id : ℕ
  pub expected_current : WorkItemState
  pub target : WorkItemState
  pub event_id : ℕ
  pub actor : ℕ
  pub approval_id : Option Text
  pub occurred_at : ℕ

-- The two exception classes.
pub data TransitionError : Type 0 where
  stale_transition illegal_transition : TransitionError

-- `self.approval_id is None or not self.approval_id.strip()`.
unfoldable pub lacks_approval : Option Text → Bool
unfolding is_blank
lacks_approval none = true
lacks_approval (some id) = is_blank id

-- The expected state first, then legality, then the approval.
unfoldable pub validate_against : Transition → WorkItemState → Result TransitionError (Unit {0})
unfolding human_gates allowed_from lacks_approval
validate_against t actual = do
  require (actual == t.expected_current) TransitionError.stale_transition
  require (contains (allowed_from actual) t.target) TransitionError.illegal_transition
  require (not (contains human_gates actual && lacks_approval t.approval_id))
      TransitionError.illegal_transition
