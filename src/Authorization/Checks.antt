-- ===== src/Authorization/Checks.antt =====
-- The artefacts and checks of domain/authorization.py. Strings are numbers, since the checks only
-- compare them; a moment is a number of microseconds; the digest of a decision is a parameter, as
-- JSON and SHA-256 are not this code.
use nokinc_factory.Prelude.{
  ℕ, ◌-◌, ◌*◌, Bool, true, false, not, ◌&&◌, ◌||◌, List, map, Option, none, some, length, keep,
  dedup, ltb, leb, Eq, ◌==◌, nat_eq, option_eq, ℕ_discrete, eq_of_discrete, Result, require, ◌>>◌,
}

pub data OnExpiry : Type 0 where
  restore_previous hold_and_escalate fail_closed : OnExpiry

unfoldable pub OnExpiry-discrete : Discrete OnExpiry
OnExpiry-discrete = hlevel

instance abbrev pub on_expiry_eq : Eq OnExpiry
on_expiry_eq = eq_of_discrete OnExpiry-discrete

pub data ActuatorClass : Type 0 where
  cooperative operational_external security_external : ActuatorClass

unfoldable pub ActuatorClass-discrete : Discrete ActuatorClass
ActuatorClass-discrete = hlevel

instance abbrev pub actuator_eq : Eq ActuatorClass
actuator_eq = eq_of_discrete ActuatorClass-discrete

-- A `datetime`: an instant in UTC, or a local time whose `utcoffset()` is `None`.
pub data Moment : Type 0 where
  aware naive : ℕ → Moment

-- `issued <= now < expires`, of aware times only.
unfoldable pub window_contains : Moment → Moment → Moment → Bool
window_contains (aware issued) (aware expires) (aware now) = leb issued now && ltb now expires
window_contains _ _ _ = false

pub record TargetBinding : Type 0 where
  pub service : ℕ
  pub target_runtime_uid : ℕ
  pub container_id : Option ℕ
  pub deployment_revision : Option ℕ
  pub image_digest : Option ℕ
  pub config_fingerprint : Option ℕ

unfoldable pub TargetBinding-discrete : Discrete TargetBinding
TargetBinding-discrete = hlevel ℕ_discrete

instance abbrev pub target_eq : Eq TargetBinding
target_eq = eq_of_discrete TargetBinding-discrete

-- `bound is None or bound == observed`.
abbrev pub agrees : Option ℕ → Option ℕ → Bool
agrees none observed = true
agrees (some bound) observed = some bound == observed

-- `TargetBinding.matches`.
unfoldable pub matches : TargetBinding → TargetBinding → Bool
matches t observed =
    t.service == observed.service
    && t.target_runtime_uid == observed.target_runtime_uid
    && agrees t.container_id observed.container_id
    && agrees t.deployment_revision observed.deployment_revision
    && agrees t.image_digest observed.image_digest
    && agrees t.config_fingerprint observed.config_fingerprint

pub record HumanApproval : Type 0 where
  pub approval_id : ℕ
  pub approver_identity : ℕ
  pub decision_digest : ℕ
  pub action : ℕ
  pub target : TargetBinding
  pub approved_at : Moment
  pub expires_at : Moment
  pub signature : ℕ

unfoldable pub is_valid_for : HumanApproval → ℕ → Moment → Bool
unfolding window_contains
is_valid_for a digest now =
    a.decision_digest == digest && window_contains a.approved_at a.expires_at now

-- The staleness bound, which may be negative.
pub data Seconds : Type 0 where
  seconds negative : ℕ → Seconds

pub record Authorization : Type 0 where
  pub decision_id : ℕ
  pub action : ℕ
  pub actuator_class : ActuatorClass
  pub target : TargetBinding
  pub parameters : ℕ
  pub evidence_snapshot : ℕ
  pub coverage_snapshot : ℕ
  pub code_model_snapshot : Option ℕ
  pub policy_version : ℕ
  pub authorized_at : Moment
  pub expires_at : Moment
  pub max_staleness_seconds : Seconds
  pub on_expiry : OnExpiry
  pub nonce : ℕ
  pub signature : ℕ
  pub human_approvals : List HumanApproval

-- The fields that `decision_digest` hashes.
pub record DecisionPayload : Type 0 where
  pub decision_id : ℕ
  pub action : ℕ
  pub actuator_class : ActuatorClass
  pub target : TargetBinding
  pub parameters : ℕ
  pub evidence_snapshot : ℕ
  pub coverage_snapshot : ℕ
  pub code_model_snapshot : Option ℕ
  pub policy_version : ℕ
  pub authorized_at : Moment
  pub expires_at : Moment
  pub max_staleness_seconds : Seconds
  pub on_expiry : OnExpiry

abbrev pub payload : Authorization → DecisionPayload
payload a = record {
  decision_id = a.decision_id;
  action = a.action;
  actuator_class = a.actuator_class;
  target = a.target;
  parameters = a.parameters;
  evidence_snapshot = a.evidence_snapshot;
  coverage_snapshot = a.coverage_snapshot;
  code_model_snapshot = a.code_model_snapshot;
  policy_version = a.policy_version;
  authorized_at = a.authorized_at;
  expires_at = a.expires_at;
  max_staleness_seconds = a.max_staleness_seconds;
  on_expiry = a.on_expiry;
}

pub data AuthorizationError : Type 0 where
  expired_authorization stale_authorization : AuthorizationError

-- The age is taken only of a window that contains `now`, so it is not negative.
unfoldable pub is_fresh : Seconds → Moment → Moment → Bool
is_fresh (seconds limit) (aware authorized) (aware now) = leb (now - authorized) (limit * 1000000)
is_fresh _ _ _ = false

unfoldable pub safe_on_expiry : ActuatorClass → OnExpiry → Bool
safe_on_expiry actuator on_expiry = not (
    actuator == ActuatorClass.security_external
    && not (on_expiry == OnExpiry.hold_and_escalate || on_expiry == OnExpiry.fail_closed))

-- `_check_validity`.
unfoldable pub check_validity : Authorization → Moment → Result AuthorizationError (Unit {0})
unfolding window_contains is_fresh safe_on_expiry
check_validity a now = do
  require (window_contains a.authorized_at a.expires_at now)
      AuthorizationError.expired_authorization
  require (is_fresh a.max_staleness_seconds a.authorized_at now)
      AuthorizationError.expired_authorization
  require (safe_on_expiry a.actuator_class a.on_expiry) AuthorizationError.expired_authorization

unfoldable pub revalidate :
    Authorization → TargetBinding → Moment → Result AuthorizationError (Unit {0})
unfolding check_validity matches
revalidate a observed now = do
  check_validity a now
  require (matches a.target observed) AuthorizationError.stale_authorization

module _ (digest : DecisionPayload → ℕ) where
  -- The condition of the comprehension `valid`.
  unfoldable pub endorses : Authorization → Moment → HumanApproval → Bool
  unfolding is_valid_for
  endorses a now h =
      is_valid_for h (digest (payload a)) now && h.action == a.action && h.target == a.target

  -- A set comprehension keeps one of each identity.
  unfoldable pub identities : Authorization → Moment → List ℕ
  unfolding endorses dedup
  identities a now =
      dedup
        (map (λ (h : HumanApproval). h.approver_identity) (keep (endorses a now) a.human_approvals))

  unfoldable pub check_two_person : Authorization → Moment → Result AuthorizationError (Unit {0})
  unfolding check_validity identities
  check_two_person a now = do
    check_validity a now
    require (not (ltb (length (identities a now)) 2)) AuthorizationError.expired_authorization
