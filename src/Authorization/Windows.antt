-- ===== src/Authorization/Windows.antt =====
-- What the checks of domain/authorization.py establish.
use nokinc_factory.Prelude.{
  ◌≡◌, ◌≢◌, refl, ◌&&◌, ◌↔◌, ◌≤◌, ◌<◌, ◌+◌, ◌*◌, ◌⊎◌, inl, inr, ℕ, true, List, [], ◌∷◌, map, keep,
  contains, dedup-Differing, ◌==◌, nat_eq, Option, none, some, arith, ok, >>-eq-ok, Bool-cases,
}
use nokinc_factory.Authorization.Checks.{
  OnExpiry, on_expiry_eq, ActuatorClass, actuator_eq, Moment, aware, naive, window_contains,
  TargetBinding, target_eq, agrees, matches, HumanApproval, is_valid_for, Seconds, seconds,
  negative, Authorization, DecisionPayload, payload, is_fresh, safe_on_expiry, check_validity,
  revalidate, endorses, identities, check_two_person,
}

-- The moment stands in the window: all three are aware, and it is before the end.
abbrev pub Covers : Moment → Moment → Moment → Type 0
Covers issued expires now =
    (i e n : ℕ) × (issued ≡ aware i) × (expires ≡ aware e) × (now ≡ aware n) × (i ≤ n) × (n < e)

pub window_contains-Covers :
    (issued expires now : Moment)
    → (window_contains issued expires now ≡ true) ↔ Covers issued expires now
unfolding window_contains
window_contains-Covers (aware i) (aware e) (aware n) = ground arith
window_contains-Covers (aware i) (aware e) (naive n) = ground arith
window_contains-Covers (aware i) (naive e) now = ground arith
window_contains-Covers (naive i) expires now = ground arith

-- The age is at most the limit.
abbrev pub IsWithin : ℕ → Moment → Moment → Type 0
IsWithin limit issued now = (i n : ℕ) → issued ≡ aware i → now ≡ aware n → n ≤ i + limit * 1000000

is_fresh-IsWithin :
    (bound : Seconds) (issued now : Moment)
    → is_fresh bound issued now ≡ true
    → (limit : ℕ) × (bound ≡ seconds limit) × IsWithin limit issued now
unfolding is_fresh
is_fresh-IsWithin (seconds limit) (aware i) (aware n) h = (limit, refl, λ j m p q. ground arith)
is_fresh-IsWithin (seconds limit) (aware i) (naive n) h = cc
is_fresh-IsWithin (seconds limit) (naive i) now h = cc
is_fresh-IsWithin (negative k) issued now h = cc

IsWithin-is_fresh :
    (bound : Seconds) (limit i n : ℕ) (issued now : Moment)
    → bound ≡ seconds limit
    → issued ≡ aware i
    → now ≡ aware n
    → n ≤ i + limit * 1000000
    → is_fresh bound issued now ≡ true
unfolding is_fresh
IsWithin-is_fresh bound limit i n issued now b p q h = ground arith

-- An authorization that may be executed at a moment.
pub record IsCurrent (a : Authorization) (now : Moment) : Type 0 where
  pub window : Covers a.authorized_at a.expires_at now
  pub limit : ℕ
  pub limited : a.max_staleness_seconds ≡ seconds limit
  pub fresh : IsWithin limit a.authorized_at now
  pub contained :
      a.actuator_class ≡ ActuatorClass.security_external → a.on_expiry ≢ OnExpiry.restore_previous

safe_on_expiry_iff :
    (c : ActuatorClass) (p : OnExpiry)
    → (safe_on_expiry c p ≡ true)
      ↔ (c ≡ ActuatorClass.security_external → p ≢ OnExpiry.restore_previous)
unfolding safe_on_expiry
safe_on_expiry_iff ActuatorClass.security_external OnExpiry.restore_previous =
    ((λ h e q. ground arith), (λ f. absurd (f refl refl)))
safe_on_expiry_iff c p = ((λ h e q. ground arith), (λ f. ground arith))

-- The validity check passes exactly for a current authorization.
pub check_validity-IsCurrent :
    (a : Authorization) (now : Moment) → (check_validity a now ≡ ok tt) ↔ IsCurrent a now
unfolding check_validity
check_validity-IsCurrent a now = (
  (λ h.
      let window = (window_contains-Covers a.authorized_at a.expires_at now).0 (ground arith) in
      let (limit, limited, fresh) =
        is_fresh-IsWithin a.max_staleness_seconds a.authorized_at now (ground arith) in
      let contained = (safe_on_expiry_iff a.actuator_class a.on_expiry).0 (ground arith) in
      record {
        window = window;
        limit = limit;
        limited = limited;
        fresh = fresh;
        contained = contained;
      }),
  (λ c.
      let (i, e, n, started, ends, at, after, before) = c.window in
      let covered = (window_contains-Covers a.authorized_at a.expires_at now).1 c.window in
      let young =
        IsWithin-is_fresh a.max_staleness_seconds c.limit i n a.authorized_at now c.limited started
          at (c.fresh i n started at) in
      let safe = (safe_on_expiry_iff a.actuator_class a.on_expiry).1 c.contained in ground arith),
)

-- A field that the authorization names is observed as it names it.
abbrev pub Bound : Option ℕ → Option ℕ → Type 0
Bound bound observed = (v : ℕ) → bound ≡ some v → observed ≡ some v

agrees_iff : (bound observed : Option ℕ) → (agrees bound observed ≡ true) ↔ Bound bound observed
agrees_iff none observed = ((λ h v e. cc), (λ f. refl))
agrees_iff (some b) observed = ((λ h v e. ground arith), (λ f. let same = f b refl in ground arith))

-- The observed target is the one that was authorized.
abbrev pub IsSame : TargetBinding → TargetBinding → Type 0
IsSame t o =
    (t.service ≡ o.service)
    × (t.target_runtime_uid ≡ o.target_runtime_uid)
    × Bound t.container_id o.container_id
    × Bound t.deployment_revision o.deployment_revision
    × Bound t.image_digest o.image_digest
    × Bound t.config_fingerprint o.config_fingerprint

matches_iff : (t o : TargetBinding) → (matches t o ≡ true) ↔ IsSame t o
unfolding matches
matches_iff t o = (
  (λ h. (
    ground arith,
    ground arith,
    (agrees_iff t.container_id o.container_id).0 (ground arith),
    (agrees_iff t.deployment_revision o.deployment_revision).0 (ground arith),
    (agrees_iff t.image_digest o.image_digest).0 (ground arith),
    (agrees_iff t.config_fingerprint o.config_fingerprint).0 (ground arith),
  )),
  (λ (service, uid, container, revision, image, config).
      let c = (agrees_iff t.container_id o.container_id).1 container in
      let r = (agrees_iff t.deployment_revision o.deployment_revision).1 revision in
      let i = (agrees_iff t.image_digest o.image_digest).1 image in
      let f = (agrees_iff t.config_fingerprint o.config_fingerprint).1 config in ground arith),
)

-- Execution is allowed exactly when the authorization is current at that moment and the observed
-- target is the authorized one in the service, the runtime object and every field that it names.
pub revalidate-IsCurrent :
    (a : Authorization) (observed : TargetBinding) (now : Moment)
    → (revalidate a observed now ≡ ok tt) ↔ IsCurrent a now × IsSame a.target observed
unfolding revalidate
revalidate-IsCurrent a observed now = (
  (λ h.
      let (valid, h1) = >>-eq-ok (check_validity a now) _ h in
      ((check_validity-IsCurrent a now).0 valid, (matches_iff a.target observed).0 (ground arith))),
  (λ (current, same).
      let valid = (check_validity-IsCurrent a now).1 current in
      let there = (matches_iff a.target observed).1 same in ground arith),
)

module _ (digest : DecisionPayload → ℕ) where
  -- An approval of this very decision, by this person, whose window contains the moment.
  pub record Endorses (a : Authorization) (now : Moment) (person : ℕ) (h : HumanApproval)
      : Type 0 where
    pub by : h.approver_identity ≡ person
    pub decided_on : h.decision_digest ≡ digest (payload a)
    pub same_action : h.action ≡ a.action
    pub same_target : h.target ≡ a.target
    pub window : Covers h.approved_at h.expires_at now

  endorses-Endorses :
      (a : Authorization) (now : Moment) (person : ℕ) (h : HumanApproval)
      → (endorses digest a now h ≡ true) × (h.approver_identity ≡ person) ↔ Endorses a now person h
  unfolding endorses is_valid_for
  endorses-Endorses a now person h = (
    (λ (e, by). record {
      by = by;
      decided_on = ground arith;
      same_action = ground arith;
      same_target = ground arith;
      window = (window_contains-Covers h.approved_at h.expires_at now).0 (ground arith);
    }),
    (λ c.
        let covered = (window_contains-Covers h.approved_at h.expires_at now).1 c.window in
        let by = c.by in
        let on = c.decided_on in
        let action = c.same_action in let target = c.same_target in ground arith),
  )

  -- A person's approval of the decision stands in the list.
  abbrev pub Approves : Authorization → Moment → ℕ → List HumanApproval → Type 0
  Approves a now person [] = ⊥
  Approves a now person (h ∷ hs) = Endorses a now person h ⊎ Approves a now person hs

  people : Authorization → Moment → List HumanApproval → List ℕ
  people a now hs =
      map (λ (h : HumanApproval). h.approver_identity) (keep (endorses digest a now) hs)

  contains-people :
      (a : Authorization) (now : Moment) (person : ℕ) (hs : List HumanApproval)
      → (contains (people a now hs) person ≡ true) ↔ Approves a now person hs
  unfolding people
  contains-people a now person [] = ((λ e. cc), (λ x. absurd x))
  contains-people a now person (h ∷ hs) =
      let rest = contains-people a now person hs in
      let this = endorses-Endorses a now person h in
      (
        (λ e. elim (Bool-cases (endorses digest a now h && h.approver_identity == person)) [
          | inl both ↦ inl (this.0 (ground arith, ground arith))
          | inr other ↦ inr (rest.0 (ground arith))
        ]),
        (λ x. elim x [
          | inl made ↦ let (on, by) = this.1 made in ground arith
          | inr later ↦ let there = rest.1 later in ground arith
        ]),
      )

  -- The two-person check passes exactly when the authorization is current and two different
  -- approver identities have each approved this very decision, for its action and target, in
  -- windows that both contain the moment.
  pub check_two_person-Approves :
      (a : Authorization) (now : Moment)
      → (check_two_person digest a now ≡ ok tt)
        ↔ IsCurrent a now
          × ((p q : ℕ) × (p ≢ q)
              × Approves a now p a.human_approvals
              × Approves a now q a.human_approvals)
  unfolding check_two_person identities people
  check_two_person-Approves a now =
      let hs = a.human_approvals in
      let ids = people a now hs in
      (
        (λ h.
            let (valid, h1) = >>-eq-ok (check_validity a now) _ h in
            let (p, q, there, too, differ) = (dedup-Differing ids).0 (ground arith) in
            (
              (check_validity-IsCurrent a now).0 valid,
              (
                p,
                q,
                differ,
                (contains-people a now p hs).0 there,
                (contains-people a now q hs).0 too,
              ),
            )),
        (λ (current, (p, q, differ, one, other)).
            let valid = (check_validity-IsCurrent a now).1 current in
            let two = (dedup-Differing ids).1 (
              p,
              q,
              (contains-people a now p hs).1 one,
              (contains-people a now q hs).1 other,
              differ,
            ) in
            ground arith),
      )
