-- ===== src/Tests/Authorization.antt =====
-- An authorization with two approvals, and the theorems on it.
use nokinc_factory.Prelude.{◌≡◌, ◌≢◌, ◌↔◌, ℕ, [], ◌∷◌, none, some, ok}
use nokinc_factory.Authorization.Checks.{
  OnExpiry, ActuatorClass, Moment, TargetBinding, HumanApproval, Seconds, Authorization,
  DecisionPayload, revalidate, check_two_person,
}
use nokinc_factory.Authorization.Windows.{
  IsCurrent, IsSame, Approves, revalidate-IsCurrent, check_two_person-Approves,
}

abbrev target : TargetBinding
target = record {
  service = 1;
  target_runtime_uid = 2;
  container_id = some 3;
  deployment_revision = none;
  image_digest = none;
  config_fingerprint = none;
}

abbrev digest : DecisionPayload → ℕ
digest p = p.decision_id

abbrev approval_of : ℕ → HumanApproval
approval_of person = record {
  approval_id = person;
  approver_identity = person;
  decision_digest = 7;
  action = 8;
  target = target;
  approved_at = Moment.aware 100;
  expires_at = Moment.aware 200;
  signature = 9;
}

abbrev isolation : Authorization
isolation = record {
  decision_id = 7;
  action = 8;
  actuator_class = ActuatorClass.security_external;
  target = target;
  parameters = 0;
  evidence_snapshot = 1;
  coverage_snapshot = 1;
  code_model_snapshot = none;
  policy_version = 1;
  authorized_at = Moment.aware 100;
  expires_at = Moment.aware 300;
  max_staleness_seconds = Seconds.seconds 60;
  on_expiry = OnExpiry.fail_closed;
  nonce = 1;
  signature = 1;
  human_approvals = approval_of 11 ∷ approval_of 12 ∷ [];
}

revalidate-IsCurrent_example :
    (revalidate isolation target (Moment.aware 150) ≡ ok tt)
    ↔ IsCurrent isolation (Moment.aware 150) × IsSame target target
revalidate-IsCurrent_example = revalidate-IsCurrent isolation target (Moment.aware 150)

check_two_person-Approves_example :
    (check_two_person digest isolation (Moment.aware 150) ≡ ok tt)
    ↔ IsCurrent isolation (Moment.aware 150)
      × ((p q : ℕ) × (p ≢ q)
          × Approves digest isolation (Moment.aware 150) p isolation.human_approvals
          × Approves digest isolation (Moment.aware 150) q isolation.human_approvals)
check_two_person-Approves_example = check_two_person-Approves digest isolation (Moment.aware 150)
