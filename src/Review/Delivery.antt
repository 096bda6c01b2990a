-- ===== src/Review/Delivery.antt =====
-- Deliveries of policy/review.py: a repeated delivery changes nothing.
use nokinc_factory.Prelude.{
  ◌≡◌, refl, ap, ◌∙◌, inl, inr, ℕ, true, [], ◌∷◌, ◌++◌, Option, none, some, first?, init, ok,
  require, nat_eq, option_eq, arith, Option-cases, >>=-eq-ok, >>-eq-ok, require-eq-ok, ok_injective,
  first?-all, first?-snoc_found, first?-snoc_new, first?-passes, init-append, option_beq_iff,
}
use nokinc_factory.Review.Artifact.{Identifier, Moment}
use nokinc_factory.Review.Session.{
  ReviewSession, ReviewAttempt, InvocationReceipt, ExecutionStop, Completion, receipt_eq, stop_eq,
}
use nokinc_factory.Review.Digests.{Digests}
use nokinc_factory.Review.Rules.{invalid}
use nokinc_factory.Review.Reducer.{complete}
use nokinc_factory.Review.Policy.{
  receipt_valid, same_delivery, is_for, deliver, redeliver, answer, complete_invocation,
}
use nokinc_factory.Review.Ledger.{IsReplayed, validated}
use nokinc_factory.Review.Shape.{is_settled, in_flight}
use nokinc_factory.Review.Closure.{found_in_flight, complete_invocation-valid}

same_delivery_refl :
    (c : Completion) (id : Identifier) (now : Moment)
    → same_delivery c (record c { invocation_id = id; finished_at = now }) ≡ true
same_delivery_refl c id now = ground (
  arith,
  option_beq_iff {A = InvocationReceipt} c.receipt c.receipt,
  option_beq_iff {A = ℕ} c.output_json c.output_json,
  option_beq_iff {A = ExecutionStop} c.failure_reason c.failure_reason,
)

module _ (d : Digests) where
  -- What answered a delivery holds it: the attempt of its name is completed by the same facts.
  pub record Answers (next : ReviewSession) (id : Identifier) (new : Completion) : Type 0 where
    pub attempt : ReviewAttempt
    pub found : first? (is_for id) next.attempts ≡ some attempt
    pub old : Completion
    pub completed : attempt.completion ≡ some old
    pub same : same_delivery old new ≡ true

  deliver-Answers :
      (given : ReviewSession) (b : IsReplayed d given) (id : Identifier) (previous : ReviewAttempt)
      (new : Completion) (next : ReviewSession)
      → first? (is_for id) given.attempts ≡ some previous
      → previous.completion ≡ none
      → deliver d given previous new ≡ ok next
      → Answers next id new
  unfolding deliver
  deliver-Answers given b id previous new next found e h =
      let (f, same) = found_in_flight d given b id previous found e in
      let (state, _, h1) = >>=-eq-ok (complete d given.seed given.state new) _ h in
      let settled : ReviewAttempt = record {
        invocation = previous.invocation;
        completion = some new;
      } in
      let before =
        ap (init {A = ReviewAttempt}) f.attempts_are ∙ init-append f.before (in_flight f.call) in
      let here : is_for id settled ≡ true =
        first?-passes (is_for id) given.attempts previous found in
      let absent : first? (is_for id) f.before ≡ none =
        (elim (Option-cases (first? (is_for id) f.before)) [
          | inl nothing ↦ nothing
          | inr (a, early) ↦
              let settled_early =
                first?-all (is_for id) is_settled f.before a early f.before_settled in
              let late = first?-snoc_found (is_for id) f.before (in_flight f.call) a early in
              let clash : previous ≡ a = cc (f.attempts_are) in absurd (ground arith)
        ]) in
      let listed : next.attempts ≡ f.before ++ settled ∷ [] = cc (before, ok_injective h1) in
      record {
        attempt = settled;
        found = rw listed (first?-snoc_new (is_for id) f.before settled absent here);
        old = new;
        completed = refl;
        same = same_delivery_refl new new.invocation_id new.finished_at;
      }

  redeliver-Answers :
      (given : ReviewSession) (b : IsReplayed d given) (id : Identifier) (previous : ReviewAttempt)
      (new : Completion) (old : Option Completion) (next : ReviewSession)
      → first? (is_for id) given.attempts ≡ some previous
      → previous.completion ≡ old
      → redeliver d given previous new old ≡ ok next
      → Answers next id new
  unfolding redeliver
  redeliver-Answers given b id previous new none next found e h =
      deliver-Answers given b id previous new next found e h
  redeliver-Answers given b id previous new (some c) next found e h =
      let same : given ≡ next = ground arith in
      record {
        attempt = previous;
        found = rw (← same) found;
        old = c;
        completed = e;
        same = ground arith;
      }

  answer-Answers :
      (given : ReviewSession) (b : IsReplayed d given) (id : Identifier) (new : Completion)
      (found : Option ReviewAttempt) (next : ReviewSession)
      → first? (is_for id) given.attempts ≡ found
      → answer d given new found ≡ ok next
      → Answers next id new
  unfolding answer
  answer-Answers given b id new none next e h = cc
  answer-Answers given b id new (some previous) next e h =
      redeliver-Answers given b id previous new previous.completion next e refl h

  Answers-answer :
      (next : ReviewSession) (id : Identifier) (new : Completion) (later : Moment)
      → Answers next id new
      → answer d next (record new { finished_at = later }) (first? (is_for id) next.attempts)
        ≡ ok next
  unfolding answer redeliver
  Answers-answer next id new later a = ground (arith, a.found, a.completed, a.same)

  -- When a delivery has been completed, the same delivery to the resulting session, at whatever
  -- time, returns that session unchanged.
  pub complete_invocation-again :
      (given : ReviewSession) (id : Identifier) (receipt : Option InvocationReceipt)
      (output : Option ℕ) (now later : Moment) (stop : Option ExecutionStop) (next : ReviewSession)
      → complete_invocation d given id receipt output now stop ≡ ok next
      → complete_invocation d next id receipt output later stop ≡ ok next
  unfolding complete_invocation
  complete_invocation-again given id receipt output now later stop next h =
      let (b, h1) = validated d given _ h in
      let (fine, h2) = >>-eq-ok (require (receipt_valid receipt) invalid) _ h1 in
      let valid = complete_invocation-valid d given id receipt output now stop next h in
      let a = answer-Answers given b id _ _ next refl h2 in
      rw (valid, require-eq-ok (receipt_valid receipt) invalid fine)
        (Answers-answer next id _ later a)
