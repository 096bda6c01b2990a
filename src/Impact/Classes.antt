-- ===== src/Impact/Classes.antt =====
-- The impact classes of policy/impact.py and its table of invalidated evidence. A set is a list, read
-- by membership.
use nokinc_factory.Prelude.{List, [], ◌∷◌, Eq, eq_of_discrete}

pub data ImpactClass : Type 0 where
  interface_surface security_sensitive authz_changed pii_dataflow_changed : ImpactClass
  persistence_semantics new_egress_or_store db_migration iac_changed new_dependency : ImpactClass
  ordinary_implementation cosmetic unclassifiable : ImpactClass

unfoldable pub ImpactClass-discrete : Discrete ImpactClass
ImpactClass-discrete = hlevel

instance abbrev pub class_eq : Eq ImpactClass
class_eq = eq_of_discrete ImpactClass-discrete

pub data Evidence : Type 0 where
  contract_tests acceptance_tests unit_tests security_review privacy_review : Evidence
  gate_2_approval rollback_strategy policy_gate license_scan sbom : Evidence

unfoldable pub Evidence-discrete : Discrete Evidence
Evidence-discrete = hlevel

instance abbrev pub evidence_eq : Eq Evidence
evidence_eq = eq_of_discrete Evidence-discrete

-- `frozenset(Evidence)`.
abbrev pub all_evidence : List Evidence
all_evidence =
    contract_tests ∷ acceptance_tests ∷ unit_tests ∷ security_review ∷ privacy_review
    ∷ gate_2_approval ∷ rollback_strategy ∷ policy_gate ∷ license_scan ∷ sbom ∷ []

-- `INVALIDATES`.
unfoldable pub invalidates : ImpactClass → List Evidence
invalidates ImpactClass.interface_surface = contract_tests ∷ gate_2_approval ∷ security_review ∷ []
invalidates ImpactClass.security_sensitive =
    security_review ∷ gate_2_approval ∷ acceptance_tests ∷ unit_tests ∷ []
invalidates ImpactClass.authz_changed =
    security_review ∷ gate_2_approval ∷ acceptance_tests ∷ contract_tests ∷ []
invalidates ImpactClass.pii_dataflow_changed =
    security_review ∷ privacy_review ∷ gate_2_approval ∷ []
invalidates ImpactClass.persistence_semantics =
    gate_2_approval ∷ rollback_strategy ∷ security_review ∷ []
invalidates ImpactClass.new_egress_or_store = gate_2_approval ∷ security_review ∷ []
invalidates ImpactClass.db_migration = gate_2_approval ∷ rollback_strategy ∷ security_review ∷ []
invalidates ImpactClass.iac_changed = gate_2_approval ∷ policy_gate ∷ []
invalidates ImpactClass.new_dependency = license_scan ∷ sbom ∷ gate_2_approval ∷ []
invalidates ImpactClass.ordinary_implementation = acceptance_tests ∷ unit_tests ∷ []
invalidates ImpactClass.cosmetic = []
invalidates ImpactClass.unclassifiable = all_evidence
