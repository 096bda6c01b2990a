-- ===== src/Review/Ledger.antt =====
-- The sessions that `validate_session` of policy/review.py accepts: those whose state is what the
-- attempt ledger replays to.
use nokinc_factory.Prelude.{
  ◌≡◌, refl, ◌∙◌, ap, true, List, [], ◌∷◌, ◌++◌, ◌==◌, ok, ◌>>=◌, require, >>=-eq-ok, >>-eq-ok,
  require-eq-ok, subst, Result-cases, inl, inr,
}
use nokinc_factory.Review.Session.{ReviewState, ReviewSession, ReviewSeed, ReviewAttempt, state_eq}
use nokinc_factory.Review.Digests.{Digests}
use nokinc_factory.Review.Rules.{Checked, invalid}
use nokinc_factory.Review.Reducer.{initial_state}
use nokinc_factory.Review.Policy.{session_valid, replay_attempt, replay, validate_session}

module _ (d : Digests) where
  -- The facts that a validated session carries.
  pub record IsReplayed (session : ReviewSession) : Type 0 where
    pub well_formed : session_valid session ≡ true
    pub first : ReviewState
    pub first_is : initial_state d session.seed ≡ ok first
    pub replayed : replay d session.seed first session.attempts ≡ ok session.state

  -- When `validate_session` returns a session, it is the one that was given, it is well formed,
  -- and its state is the replay of its ledger from the initial state of its seed.
  pub validate_session-IsReplayed :
      (given : ReviewSession) {session : ReviewSession}
      → validate_session d given ≡ ok session
      → (session ≡ given) × IsReplayed given
  unfolding validate_session
  validate_session-IsReplayed given h =
      let (fine, h1) = >>-eq-ok (require (session_valid given) invalid) _ h in
      let (first, starts, h2) = >>=-eq-ok (initial_state d given.seed) _ h1 in
      let (expected, replays, h3) = >>=-eq-ok (replay d given.seed first given.attempts) _ h2 in
      let (agrees, h4) = >>-eq-ok (require (expected == given.state) invalid) _ h3 in
      (
        cc,
        record {
          well_formed = require-eq-ok (session_valid given) invalid fine;
          first = first;
          first_is = starts;
          replayed =
              replays
              ∙ ap ok ((state_eq.beq_iff expected given.state).0 (require-eq-ok _ invalid agrees));
        },
      )

  -- What follows a validation goes on with the session that was given.
  pub validated {ℓ} :
      {B : Type ℓ} (given : ReviewSession) (f : ReviewSession → Checked B) {b : B}
      → (validate_session d given >>= f) ≡ ok b
      → IsReplayed given × (f given ≡ ok b)
  validated given f {b} h =
      let (session, v, h1) = >>=-eq-ok (validate_session d given) f h in
      let (same, replayed) = validate_session-IsReplayed given v in
      (replayed, subst (λ (s : ReviewSession). f s ≡ ok b) same h1)

  -- The replay of a ledger is accepted.
  pub IsReplayed-validate_session :
      (session : ReviewSession) → IsReplayed session → validate_session d session ≡ ok session
  unfolding validate_session
  IsReplayed-validate_session session h =
      let same = (state_eq.beq_iff session.state session.state).1 refl in
      rw (h.well_formed, h.first_is, h.replayed, same)

  -- Replaying a ledger that was extended is replaying its extension from where it stood.
  pub replay-append :
      (seed : ReviewSeed) (state : ReviewState) (xs ys : List ReviewAttempt)
      → replay d seed state (xs ++ ys) ≡ (replay d seed state xs >>= λ s. replay d seed s ys)
  unfolding replay
  replay-append seed state [] ys = refl
  replay-append seed state (x ∷ xs) ys = elim (Result-cases (replay_attempt d seed state x)) [
    | inl (next, e) ↦ rw e (replay-append seed next xs ys)
    | inr (error, e) ↦ rw e
  ]
