-- ===== src/Review/Extension.antt =====
-- What policy/review_persistence.py lets a store commit: the session as it is, or exactly what one
-- operation of policy/review.py makes of it.
use nokinc_factory.Prelude.{
  ◌≡◌, refl, sym, ap, ◌∙◌, inl, inr, true, false, not, [], ◌∷◌, Option, none, some, init, last?,
  length, ok, require, ◌==◌, nat_eq, list_eq, arith, Bool-cases, >>=-eq-ok, >>-eq-ok, require-eq-ok,
  ok_injective, subst, init-append, last?-append, length-append, if-cases, list_beq_iff,
}
use nokinc_factory.Review.Artifact.{Identifier, Moment, ModelIdentity, Reservation}
use nokinc_factory.Review.Session.{
  ReviewSession, ReviewAttempt, InvocationKind, Completion, seed_eq, session_eq, attempt_eq,
}
use nokinc_factory.Review.Digests.{Digests}
use nokinc_factory.Review.Rules.{invalid, is_some, Checked}
use nokinc_factory.Review.Policy.{invocation_of, reserve_invocation, complete_invocation}
use nokinc_factory.Review.Persistence.{
  TransitionKind, last_completion, extend, extend_reserve, extend_complete, adds_attempt,
  settles_attempt, validate_extension,
}
use nokinc_factory.Review.Ledger.{validated, IsReplayed-validate_session}
use nokinc_factory.Review.Reserve.{reserve-Admits}
use nokinc_factory.Review.Shape.{in_flight}
use nokinc_factory.Review.Closure.{reserve_invocation-IsReservation, reserve_invocation-valid}

module _ (d : Digests) where
  -- The reservation that an attempt records.
  abbrev reserve_as : ReviewSession → ReviewAttempt → Checked ReviewSession
  reserve_as current a =
      reserve_invocation d current a.invocation.invocation_id a.invocation.kind a.invocation.actor
        a.invocation.reservation a.invocation.started_at

  -- The delivery that a completion records.
  abbrev complete_as : ReviewSession → Completion → Checked ReviewSession
  complete_as current c =
      complete_invocation d current c.invocation_id c.receipt c.output_json c.finished_at
        c.failure_reason

  -- What the answer says of the stored and the proposed session.
  abbrev pub Follows : ReviewSession → ReviewSession → TransitionKind → Type 0
  Follows current proposed TransitionKind.create = ⊥
  Follows current proposed TransitionKind.unchanged = current ≡ proposed
  Follows current proposed TransitionKind.reserve =
      (a : ReviewAttempt) × (last? proposed.attempts ≡ some a)
      × (a.completion ≡ none)
      × (reserve_as current a ≡ ok proposed)
  Follows current proposed TransitionKind.complete =
      (c : Completion) × (last_completion (last? proposed.attempts) ≡ some c)
      × (complete_as current c ≡ ok proposed)

  extend_reserve-Follows :
      (current proposed : ReviewSession) (last : Option ReviewAttempt) (kind : TransitionKind)
      → last? proposed.attempts ≡ last
      → extend_reserve d current proposed last ≡ ok kind
      → Follows current proposed kind
  unfolding extend_reserve
  extend_reserve-Follows current proposed none kind e h = cc
  extend_reserve-Follows current proposed (some a) kind e h =
      let (bare, h1) = >>-eq-ok (require (not (is_some a.completion)) invalid) _ h in
      let (expected, r, h2) = >>=-eq-ok (reserve_as current a) _ h1 in
      let (same, h3) = >>-eq-ok (require (expected == proposed) invalid) _ h2 in
      let is = (session_eq.beq_iff expected proposed).0 (require-eq-ok _ invalid same) in
      let open_still = require-eq-ok (not (is_some a.completion)) invalid bare in
      subst (Follows current proposed) (ok_injective h3) (a, e, ground arith, r ∙ ap ok is)

  extend_complete-Follows :
      (current proposed : ReviewSession) (last : Option Completion) (kind : TransitionKind)
      → last_completion (last? proposed.attempts) ≡ last
      → extend_complete d current proposed last ≡ ok kind
      → Follows current proposed kind
  unfolding extend_complete
  extend_complete-Follows current proposed none kind e h = cc
  extend_complete-Follows current proposed (some c) kind e h =
      let (expected, r, h1) = >>=-eq-ok (complete_as current c) _ h in
      let (same, h2) = >>-eq-ok (require (expected == proposed) invalid) _ h1 in
      let is = (session_eq.beq_iff expected proposed).0 (require-eq-ok _ invalid same) in
      subst (Follows current proposed) (ok_injective h2) (c, e, r ∙ ap ok is)

  extend-Follows :
      (current proposed : ReviewSession) (kind : TransitionKind)
      → extend d current proposed ≡ ok kind
      → Follows current proposed kind
  unfolding extend
  extend-Follows current proposed kind h = elim (if-cases (current == proposed) _ _ h) [
    | inl (same, e) ↦
        subst (Follows current proposed) (ok_injective e)
          ((session_eq.beq_iff current proposed).0 same)
    | inr (_, h1) ↦ elim (if-cases (adds_attempt d current proposed) _ _ h1) [
      | inl (_, e) ↦ extend_reserve-Follows current proposed (last? proposed.attempts) kind refl e
      | inr (_, h2) ↦ elim (if-cases (settles_attempt d current proposed) _ _ h2) [
        | inl (_, e) ↦
            extend_complete-Follows current proposed (last_completion (last? proposed.attempts))
              kind refl e
        | inr (_, e) ↦ cc
      ]
    ]
  ]

  -- When `validate_extension` lets a proposal follow a stored session, it names what happened:
  -- nothing, the reservation that `reserve_invocation` makes for the last attempt, or the delivery
  -- that `complete_invocation` makes of its completion.
  pub validate_extension-Follows :
      (current proposed : ReviewSession) (kind : TransitionKind)
      → validate_extension d (some current) proposed ≡ ok kind
      → Follows current proposed kind
  unfolding validate_extension
  validate_extension-Follows current proposed kind h =
      let (_, h1) = validated d proposed _ h in
      let (_, h2) = validated d current _ h1 in
      let (_, h3) = >>-eq-ok (require (current.seed == proposed.seed) invalid) _ h2 in
      extend-Follows current proposed kind h3

  -- A reservation that `reserve_invocation` makes of a stored session is let through by
  -- `validate_extension`, as a reservation.
  pub reserve_invocation-validate_extension :
      (current : ReviewSession) (id : Identifier) (kind : InvocationKind) (actor : ModelIdentity)
      (held : Reservation) (now : Moment) (next : ReviewSession)
      → reserve_invocation d current id kind actor held now ≡ ok next
      → validate_extension d (some current) next ≡ ok TransitionKind.reserve
  unfolding validate_extension extend
  reserve_invocation-validate_extension current id kind actor held now next h =
      let call = invocation_of d current id kind actor held now in
      let r = reserve_invocation-IsReservation d current id kind actor held now next h in
      let valid = reserve_invocation-valid d current id kind actor held now next h in
      let before = IsReplayed-validate_session d current r.before in
      let idle =
        (reserve-Admits d current.seed current.state call next.state r.state_reserved).1.idle in
      let one = length-append {0} current.attempts (in_flight call ∷ []) in
      let longer = ap (length {A = ReviewAttempt}) r.attempt_added ∙ one in
      let front =
        ap (init {A = ReviewAttempt}) r.attempt_added
        ∙ init-append current.attempts (in_flight call) in
      let last =
        ap (last? {A = ReviewAttempt}) r.attempt_added
        ∙ last?-append current.attempts (in_flight call) in
      let seed_same = (seed_eq.beq_iff current.seed next.seed).1 (sym r.seed_kept) in
      let itself = (session_eq.beq_iff next next).1 refl in
      let new : (current == next) ≡ false = (elim (Bool-cases (current == next)) [
        | inl same ↦
            let is =
              ap (λ (s : ReviewSession). length s.attempts)
                ((session_eq.beq_iff current next).0 same) in
            absurd (omega arith)
        | inr other ↦ other
      ]) in
      let adds : adds_attempt d current next ≡ true =
        (let same = (list_beq_iff (init next.attempts) current.attempts).1 front in ground arith) in
      rw (valid, before, seed_same, new, adds, last) (rw (h, itself))
