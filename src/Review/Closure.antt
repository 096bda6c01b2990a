-- ===== src/Review/Closure.antt =====
-- The operations of policy/review.py lead from valid sessions to valid sessions: what they return
-- passes the replay check with which the next operation begins.
use nokinc_factory.Prelude.{
  ◌≡◌, refl, sym, ap, ◌∙◌, inl, inr, ℕ, true, List, [], ◌∷◌, ◌++◌, Option, none, some, all, first?,
  init, ok, require, nat_eq, arith, >>=-eq-ok, >>-eq-ok, require-eq-ok, ok_injective, subst,
  all-append, first?-all, first?-snoc, init-append,
}
use nokinc_factory.Review.Artifact.{
  Identifier, Moment, ReviewScope, QualityContract, ReviewPolicy, ModelIdentity, ArtifactRef,
  Reservation,
}
use nokinc_factory.Review.Session.{
  ReviewSeed, ReviewState, ReviewSession, ReviewAttempt, Invocation, InvocationKind,
  InvocationReceipt, ExecutionStop, Completion,
}
use nokinc_factory.Review.Digests.{Digests}
use nokinc_factory.Review.Validators.{seed_valid, invocation_valid}
use nokinc_factory.Review.Rules.{invalid, validate_seed}
use nokinc_factory.Review.Reducer.{reserve, complete, initial_state}
use nokinc_factory.Review.Policy.{
  receipt_valid, attempt_valid, session_valid, apply_completion, replay_attempt, replay,
  validate_session, start_session, invocation_of, reserve_invocation, deliver, redeliver, answer,
  is_for, complete_invocation,
}
use nokinc_factory.Review.Ledger.{IsReplayed, validated, IsReplayed-validate_session, replay-append}
use nokinc_factory.Review.Shape.{is_settled, in_flight, IsFlying, replay-Shape}

module _ (d : Digests) where
  initial_state-pending :
      (seed : ReviewSeed) (first : ReviewState)
      → initial_state d seed ≡ ok first
      → first.pending ≡ none
  unfolding initial_state
  initial_state-pending seed first h =
      let (_, h1) = >>-eq-ok (validate_seed d seed) _ h in rw (← (ok_injective h1))

  -- One more attempt on a replayed ledger.
  replay-snoc :
      (seed : ReviewSeed) (first mid : ReviewState) (xs : List ReviewAttempt) (a : ReviewAttempt)
      (next : ReviewState)
      → replay d seed first xs ≡ ok mid
      → replay_attempt d seed mid a ≡ ok next
      → replay d seed first (xs ++ a ∷ []) ≡ ok next
  unfolding replay
  replay-snoc seed first mid xs a next h k = replay-append d seed first xs (a ∷ []) ∙ rw (h, k)

  -- A session that `start_session` returns is accepted by `validate_session` as it is.
  pub start_session-valid :
      (scope : ReviewScope) (contract : QualityContract) (policy : ReviewPolicy)
      (doer : ModelIdentity) (reviewers : List ModelIdentity) (artifact : ArtifactRef)
      (now : Moment) (session : ReviewSession)
      → start_session d scope contract policy doer reviewers artifact now ≡ ok session
      → validate_session d session ≡ ok session
  unfolding start_session session_valid replay
  start_session-valid scope contract policy doer reviewers artifact now session h =
      let seed : ReviewSeed = record {
        scope = scope;
        contract = contract;
        policy = policy;
        original_doer = doer;
        reviewers = reviewers;
        initial_artifact = artifact;
        started_at = now;
      } in
      let (fine, h1) = >>-eq-ok (require (seed_valid seed) invalid) _ h in
      let (state, starts, h2) = >>=-eq-ok (initial_state d seed) _ h1 in
      let made : ReviewSession = record { seed = seed; attempts = []; state = state } in
      let valid = IsReplayed-validate_session d made (record {
        well_formed = rw (require-eq-ok (seed_valid seed) invalid fine);
        first = state;
        first_is = starts;
        replayed = refl;
      }) in
      subst (λ (s : ReviewSession). validate_session d s ≡ ok s) (ok_injective h2) valid

  well_formed-snoc :
      (seed : ReviewSeed) (xs : List ReviewAttempt) (a : ReviewAttempt) (s t : ReviewState)
      → session_valid (record { seed = seed; attempts = xs; state = s }) ≡ true
      → attempt_valid a ≡ true
      → session_valid (record { seed = seed; attempts = xs ++ a ∷ []; state = t }) ≡ true
  unfolding session_valid
  well_formed-snoc seed xs a s t h v = ground (arith, all-append attempt_valid xs (a ∷ []))

  -- What a reservation makes of a session.
  pub record IsReservation (given : ReviewSession) (call : Invocation) (next : ReviewSession)
      : Type 0 where
    pub before : IsReplayed d given
    pub call_valid : invocation_valid call ≡ true
    pub state_reserved : reserve d given.seed given.state call ≡ ok next.state
    pub seed_kept : next.seed ≡ given.seed
    pub attempt_added : next.attempts ≡ given.attempts ++ in_flight call ∷ []

  pub reserve_invocation-IsReservation :
      (given : ReviewSession) (id : Identifier) (kind : InvocationKind) (actor : ModelIdentity)
      (held : Reservation) (now : Moment) (next : ReviewSession)
      → reserve_invocation d given id kind actor held now ≡ ok next
      → IsReservation given (invocation_of d given id kind actor held now) next
  unfolding reserve_invocation
  reserve_invocation-IsReservation given id kind actor held now next h =
      let call = invocation_of d given id kind actor held now in
      let (replayed, h1) = validated d given _ h in
      let (fine, h2) = >>-eq-ok (require (invocation_valid call) invalid) _ h1 in
      let (state, r, h3) = >>=-eq-ok (reserve d given.seed given.state call) _ h2 in
      let made = ok_injective h3 in
      record {
        before = replayed;
        call_valid = require-eq-ok (invocation_valid call) invalid fine;
        state_reserved =
            subst (λ (s : ReviewSession). reserve d given.seed given.state call ≡ ok s.state) made
              r;
        seed_kept = ap (λ (s : ReviewSession). s.seed) (sym made);
        attempt_added = ap (λ (s : ReviewSession). s.attempts) (sym made);
      }

  replay_in_flight :
      (seed : ReviewSeed) (state : ReviewState) (call : Invocation) (next : ReviewState)
      → reserve d seed state call ≡ ok next
      → replay_attempt d seed state (in_flight call) ≡ ok next
  unfolding replay_attempt
  replay_in_flight seed state call next h = rw h

  attempt_valid-in_flight :
      (call : Invocation) → invocation_valid call ≡ true → attempt_valid (in_flight call) ≡ true
  unfolding attempt_valid
  attempt_valid-in_flight call h = ground arith

  reservation-IsReplayed :
      (given : ReviewSession) (call : Invocation) (state : ReviewState)
      → IsReplayed d given
      → invocation_valid call ≡ true
      → reserve d given.seed given.state call ≡ ok state
      → IsReplayed d (record {
        seed = given.seed;
        attempts = given.attempts ++ in_flight call ∷ [];
        state = state;
      })
  reservation-IsReplayed given call state b valid r = record {
    well_formed =
        well_formed-snoc given.seed given.attempts (in_flight call) given.state state b.well_formed
          (attempt_valid-in_flight call valid);
    first = b.first;
    first_is = b.first_is;
    replayed =
        replay-snoc given.seed b.first given.state given.attempts (in_flight call) state b.replayed
          (replay_in_flight given.seed given.state call state r);
  }

  -- A session that `reserve_invocation` returns is accepted by `validate_session` as it is.
  pub reserve_invocation-valid :
      (given : ReviewSession) (id : Identifier) (kind : InvocationKind) (actor : ModelIdentity)
      (held : Reservation) (now : Moment) (next : ReviewSession)
      → reserve_invocation d given id kind actor held now ≡ ok next
      → validate_session d next ≡ ok next
  reserve_invocation-valid given id kind actor held now next h =
      let call = invocation_of d given id kind actor held now in
      let r = reserve_invocation-IsReservation given id kind actor held now next h in
      let made : record {
        seed = given.seed;
        attempts = given.attempts ++ in_flight call ∷ [];
        state = next.state;
      }
          ≡ next =
        cc (r.seed_kept, r.attempt_added) in
      IsReplayed-validate_session d next (
        subst (IsReplayed d) made
          (reservation-IsReplayed given call next.state r.before r.call_valid r.state_reserved))

  attempt_valid-completed :
      (call : Invocation) (c : Completion)
      → attempt_valid (in_flight call) ≡ true
      → receipt_valid c.receipt ≡ true
      → attempt_valid (record { invocation = call; completion = some c }) ≡ true
  unfolding attempt_valid
  attempt_valid-completed call c h k = ground arith

  session_valid-attempts :
      (s : ReviewSession) → session_valid s ≡ true → all attempt_valid s.attempts ≡ true
  unfolding session_valid
  session_valid-attempts s h = ground arith

  well_formed-part :
      (s : ReviewSession) (xs : List ReviewAttempt)
      → session_valid s ≡ true
      → all attempt_valid xs ≡ true
      → session_valid (record { seed = s.seed; attempts = xs; state = s.state }) ≡ true
  unfolding session_valid
  well_formed-part s xs h k = ground arith

  replay_completed :
      (seed : ReviewSeed) (mid state : ReviewState) (call : Invocation) (c : Completion)
      (next : ReviewState)
      → reserve d seed mid call ≡ ok state
      → complete d seed state c ≡ ok next
      → replay_attempt d seed mid (record { invocation = call; completion = some c }) ≡ ok next
  unfolding replay_attempt apply_completion
  replay_completed seed mid state call c next h k = rw (h, k)

  -- What the first delivery for a call in flight makes of a session.
  flying_deliver :
      (given : ReviewSession) (b : IsReplayed d given)
      (f : IsFlying d given.seed b.first given.attempts given.state) (c : Completion)
      (next : ReviewSession)
      → receipt_valid c.receipt ≡ true
      → deliver d given (in_flight f.call) c ≡ ok next
      → IsReplayed d next
  unfolding deliver
  flying_deliver given b f c next fine h =
      let (state, done, h1) = >>=-eq-ok (complete d given.seed given.state c) _ h in
      let settled : ReviewAttempt = record { invocation = f.call; completion = some c } in
      let before =
        ap (init {A = ReviewAttempt}) f.attempts_are ∙ init-append f.before (in_flight f.call) in
      let listed =
        subst (λ (xs : List ReviewAttempt). all attempt_valid xs ≡ true) f.attempts_are
          (session_valid-attempts given b.well_formed) in
      let flying = all-append attempt_valid f.before (in_flight f.call ∷ []) in
      let made : record { seed = given.seed; attempts = f.before ++ settled ∷ []; state = state }
          ≡ next =
        cc (before, ok_injective h1) in
      subst (IsReplayed d) made (record {
        well_formed =
            well_formed-snoc given.seed f.before settled given.state state
              (well_formed-part given f.before b.well_formed (ground arith))
              (attempt_valid-completed f.call c (ground arith) fine);
        first = b.first;
        first_is = b.first_is;
        replayed =
            replay-snoc given.seed b.first f.mid f.before settled state f.before_replays
              (replay_completed given.seed f.mid given.state f.call c state f.call_reserved done);
      })

  -- Only the call in flight has no completion yet.
  pub found_in_flight :
      (given : ReviewSession) (b : IsReplayed d given) (id : Identifier) (previous : ReviewAttempt)
      → first? (is_for id) given.attempts ≡ some previous
      → previous.completion ≡ none
      → (f : IsFlying d given.seed b.first given.attempts given.state) × (previous
          ≡ in_flight f.call)
  found_in_flight given b id previous found open_still =
      elim (replay-Shape d given.seed b.first given.attempts given.state
        (initial_state-pending given.seed b.first b.first_is) b.replayed) [
          | inl (idle, settled) ↦
              let e = first?-all (is_for id) is_settled given.attempts previous found settled in
              absurd (ground arith)
          | inr f ↦
              let found' =
                subst (λ (xs : List ReviewAttempt). first? (is_for id) xs ≡ some previous)
                  f.attempts_are found in
              (
                f,
                (elim (first?-snoc (is_for id) f.before (in_flight f.call) previous found') [
                  | inl early ↦
                      let e =
                        first?-all (is_for id) is_settled f.before previous early
                          f.before_settled in
                      absurd (ground arith)
                  | inr same ↦ same
                ]),
              )
        ]

  redeliver-valid :
      (given : ReviewSession) (b : IsReplayed d given) (previous : ReviewAttempt) (new : Completion)
      (old : Option Completion) (next : ReviewSession)
      → receipt_valid new.receipt ≡ true
      → first? (is_for new.invocation_id) given.attempts ≡ some previous
      → previous.completion ≡ old
      → redeliver d given previous new old ≡ ok next
      → IsReplayed d next
  unfolding redeliver
  redeliver-valid given b previous new (some c) next fine found e h =
      let same : given ≡ next = ground arith in subst (IsReplayed d) same b
  redeliver-valid given b previous new none next fine found e h =
      let (f, same) = found_in_flight given b new.invocation_id previous found e in
      flying_deliver given b f new next fine
        (subst (λ (a : ReviewAttempt). deliver d given a new ≡ ok next) same h)

  answer-valid :
      (given : ReviewSession) (b : IsReplayed d given) (new : Completion)
      (found : Option ReviewAttempt) (next : ReviewSession)
      → receipt_valid new.receipt ≡ true
      → first? (is_for new.invocation_id) given.attempts ≡ found
      → answer d given new found ≡ ok next
      → IsReplayed d next
  unfolding answer
  answer-valid given b new none next fine e h = cc
  answer-valid given b new (some previous) next fine e h =
      redeliver-valid given b previous new previous.completion next fine e refl h

  -- A session that `complete_invocation` returns is accepted by `validate_session` as it is.
  pub complete_invocation-valid :
      (given : ReviewSession) (id : Identifier) (receipt : Option InvocationReceipt)
      (output : Option ℕ) (now : Moment) (stop : Option ExecutionStop) (next : ReviewSession)
      → complete_invocation d given id receipt output now stop ≡ ok next
      → validate_session d next ≡ ok next
  unfolding complete_invocation
  complete_invocation-valid given id receipt output now stop next h =
      let (b, h1) = validated d given _ h in
      let (fine, h2) = >>-eq-ok (require (receipt_valid receipt) invalid) _ h1 in
      IsReplayed-validate_session d next
        (answer-valid given b _ _ next (require-eq-ok (receipt_valid receipt) invalid fine) refl h2)
