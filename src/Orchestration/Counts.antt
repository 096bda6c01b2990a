-- ===== src/Orchestration/Counts.antt =====
-- How often a coordinator of application/review.py executes.
use nokinc_factory.Prelude.{
  ◌≡◌, refl, ℕ, zero, suc, ◌+◌, ◌-◌, ◌≤◌, Bool, true, false, ◌&&◌, List, [], ◌∷◌, Option, none,
  some, leb, Bool-cases, inl, inr, arith,
}
use nokinc_factory.Review.Session.{Invocation, ReviewSession, ReviewDecision, ExecutionStop}
use nokinc_factory.Review.Digests.{Digests}
use nokinc_factory.Review.Policy.{reserve_invocation}
use nokinc_factory.Orchestration.Programs.{
  Call, Reply, Program, returns, raised, call, ◌>>=◌, checked, given, Event, Trace, Monitor, follow,
  Keeps, Keeps-bind, Trace-follow,
}
use nokinc_factory.Orchestration.Returns.{normalize_result}
use nokinc_factory.Orchestration.Steps.{
  ReviewOrchestrator, OrchestrationResult, RunStatus, current, decision, dispatch_stop, settle,
  execute, dispatch, commit, reserve, proceed, step, continue_run, run, kind_of, actor_of, is_final,
  is_repair,
}
use nokinc_factory.Orchestration.Guards.{
  Quiet, Silent, checked-Silent, given-Silent, current-Silent, decision-Silent,
  dispatch_stop-Silent, settle-Silent,
}

abbrev pub executed : Call → ℕ
executed (Call.execute request) = 1
executed _ = 0

unfoldable pub executions : List Event → ℕ
executions [] = 0
executions ((c, r) ∷ es) = executed c + executions es

-- A meter of the executions that are left.
abbrev take : ℕ → Option ℕ
take zero = none
take (suc n) = some n

unfoldable meter : Monitor ℕ
meter n (Call.execute request) r = take n
meter n (Call.load_current scope) r = some n
meter n (Call.observe scope key) r = some n
meter n Call.clock r = some n
meter n Call.new_invocation_id r = some n
meter n (Call.authorize i) r = some n
meter n (Call.compare_and_reserve scope expected updated budget) r = some n

meter-Quiet : (n : ℕ) (c : Call) (r : Reply c) → Quiet c → meter n c r ≡ some n
unfolding meter
meter-Quiet n (Call.execute request) r q = absurd q
meter-Quiet n (Call.load_current scope) r q = refl
meter-Quiet n (Call.observe scope key) r q = refl
meter-Quiet n Call.clock r q = refl
meter-Quiet n Call.new_invocation_id r q = refl
meter-Quiet n (Call.authorize i) r q = refl
meter-Quiet n (Call.compare_and_reserve scope expected updated budget) r q = refl

take-executed : (n m : ℕ) → take n ≡ some m → n ≡ suc m
take-executed zero m h = cc
take-executed (suc n) m h = ground (arith, h)

meter-executed : (n m : ℕ) (c : Call) (r : Reply c) → meter n c r ≡ some m → n ≡ executed c + m
unfolding meter
meter-executed n m (Call.execute request) r h = ground (arith, take-executed n m h)
meter-executed n m (Call.load_current scope) r h = ground (arith, h)
meter-executed n m (Call.observe scope key) r h = ground (arith, h)
meter-executed n m Call.clock r h = ground (arith, h)
meter-executed n m Call.new_invocation_id r h = ground (arith, h)
meter-executed n m (Call.authorize i) r h = ground (arith, h)
meter-executed n m (Call.compare_and_reserve scope expected updated budget) r h = ground (arith, h)

follow-executions :
    (n : ℕ) (es : List Event) (left : ℕ) → follow meter n es ≡ some left → executions es ≤ n
unfolding follow executions
follow-executions n [] left h = omega arith
follow-executions n ((c, r) ∷ es) left h =
    by_reply (meter n c r) refl h (λ m k. follow-executions m es left k)
  where
    by_reply :
        (m : Option ℕ)
        → meter n c r ≡ m
        → elim m [ none ↦ none | some t ↦ follow meter t es ] ≡ some left
        → ((t : ℕ) → follow meter t es ≡ some left → executions es ≤ t)
        → executed c + executions es ≤ n
    by_reply none e k rest = cc
    by_reply (some m) e k rest = omega (arith, meter-executed n m c r e, rest m k)

-- Whether a program executes no more than what is more than `n`.
abbrev Leaves : {A : Type 0} → ℕ → ℕ → Program A → Type 0
Leaves n s p = Keeps meter (λ t a. n ≤ t) s p

silent : {A : Type 0} (n s : ℕ) (p : Program A) → n ≤ s → Silent p → Leaves n s p
silent n s (returns a) l h = l
silent n s raised l h = tt
silent n s (call c next) l h = λ r. (s, meter-Quiet s c r h.0, silent n s (next r) l (h.1 r))

after-Silent :
    {A B : Type 0} (n s : ℕ) (p : Program A) (next : A → Program B)
    → Silent p
    → ((a : A) → Leaves n s (next a))
    → Leaves n s (p >>= next)
after-Silent n s (returns a) next h k = k a
after-Silent n s raised next h k = tt
after-Silent n s (call c reply) next h k =
    λ r. (s, meter-Quiet s c r h.0, after-Silent n s (reply r) next (h.1 r) k)

module _ (d : Digests) (utf8_length : ℕ → Option ℕ) (o : ReviewOrchestrator) where
  execute-Leaves :
      (n s : ℕ) (pending : ReviewSession) (i : Invocation) (stop : Option ExecutionStop)
      → suc n ≤ s
      → Leaves n s (execute d utf8_length o pending i stop)
  unfolding execute meter
  execute-Leaves n s pending i (some stop) l =
      silent n s (settle d utf8_length o pending i none none (some stop)) (omega arith)
        (settle-Silent d utf8_length o pending i none none (some stop))
  execute-Leaves n zero pending i none l = absurd (omega arith)
  execute-Leaves n (suc s) pending i none l = λ r.
      let normal = normalize_result utf8_length r in
      (
        s,
        refl,
        silent n s (settle d utf8_length o pending i normal.receipt normal.output normal.stop)
            (omega arith)
            (settle-Silent d utf8_length o pending i normal.receipt normal.output normal.stop),
      )

  dispatch-Leaves :
      (n s : ℕ) (pending : ReviewSession) (i : Invocation) (won : Bool)
      → suc n ≤ s
      → Leaves n s (dispatch d utf8_length o pending i won)
  unfolding dispatch
  dispatch-Leaves n s pending i false l =
      after-Silent n s (current d utf8_length o) _ (current-Silent d utf8_length o) (λ actual.
        after-Silent n s (decision d utf8_length o actual) _
          (decision-Silent d utf8_length o actual) (λ decided. omega arith))
  dispatch-Leaves n s pending i true l =
      after-Silent n s (dispatch_stop d utf8_length o pending i) _
        (dispatch_stop-Silent d utf8_length o pending i)
        (λ stop. execute-Leaves n s pending i stop l)

  commit-Leaves :
      (n s : ℕ) (session pending : ReviewSession) (i : Invocation) (allowed : Bool)
      → suc n ≤ s
      → Leaves n s (commit d utf8_length o session pending i allowed)
  unfolding commit meter
  commit-Leaves n s session pending i false l = tt
  commit-Leaves n s session pending i true l =
      λ answer. (s, refl, dispatch-Leaves n s pending i answer l)

  reserve-Leaves :
      (n s : ℕ) (session : ReviewSession) (repair : Bool)
      → suc n ≤ s
      → Leaves n s (reserve d utf8_length o session repair)
  unfolding reserve meter
  reserve-Leaves n s session repair l =
      after-Silent n s (given (actor_of session repair)) _ (given-Silent _) (λ actor. λ id. (
        s,
        refl,
        λ now. (
          s,
          refl,
          after-Silent n s
              (checked (reserve_invocation d session id (kind_of repair) actor o.reservation now)) _
              (checked-Silent _)
              (λ pending.
                after-Silent n s (given pending.state.pending) _ (given-Silent _)
                  (λ i. λ allowed. (s, refl, commit-Leaves n s session pending i allowed l))),
        ),
      ))

  proceed-Leaves :
      (n s : ℕ) (session : ReviewSession) (decided : ReviewDecision) (pending : Option Invocation)
      → suc n ≤ s
      → Leaves n s (proceed d utf8_length o session decided pending)
  unfolding proceed
  proceed-Leaves n s session decided (some i) l = omega arith
  proceed-Leaves n s session decided none l = elim (Bool-cases (is_final decided.status)) [
    | inl on ↦ rw on (omega arith)
    | inr off ↦ rw off (reserve-Leaves n s session (is_repair decided.status) l)
  ]

  -- A step executes once at most.
  step-Leaves : (n s : ℕ) → suc n ≤ s → Leaves n s (step d utf8_length o)
  unfolding step
  step-Leaves n s l =
      after-Silent n s (current d utf8_length o) _ (current-Silent d utf8_length o) (λ session.
        after-Silent n s (decision d utf8_length o session) _
          (decision-Silent d utf8_length o session)
          (λ decided. proceed-Leaves n s session decided session.state.pending l))

  continue_run-Leaves :
      (s n : ℕ) (result : OrchestrationResult) (status : RunStatus)
      → n ≤ s
      → Leaves 0 s (continue_run d utf8_length o n result status)
  unfolding continue_run
  continue_run-Leaves s zero result RunStatus.advanced l = omega arith
  continue_run-Leaves s (suc n) result RunStatus.advanced l =
      Keeps-bind meter (λ t a. n ≤ t) (λ t a. 0 ≤ t) s (step d utf8_length o) _ (step-Leaves n s l)
        (λ t next u. continue_run-Leaves t n next next.status u)
  continue_run-Leaves s zero result RunStatus.finished l = omega arith
  continue_run-Leaves s zero result RunStatus.awaiting_settlement l = omega arith
  continue_run-Leaves s zero result RunStatus.contended l = omega arith
  continue_run-Leaves s zero result RunStatus.paused l = omega arith
  continue_run-Leaves s (suc n) result RunStatus.finished l = omega arith
  continue_run-Leaves s (suc n) result RunStatus.awaiting_settlement l = omega arith
  continue_run-Leaves s (suc n) result RunStatus.contended l = omega arith
  continue_run-Leaves s (suc n) result RunStatus.paused l = omega arith

  run-Leaves : (max_steps : ℕ) → Leaves 0 max_steps (run d utf8_length o max_steps)
  unfolding run
  run-Leaves max_steps = elim (Bool-cases (leb 1 max_steps && leb max_steps 64)) [
    | inl on ↦
        let some_left : suc (max_steps - 1) ≤ max_steps = ground arith in
        rw on (
          Keeps-bind meter (λ t a. max_steps - 1 ≤ t) (λ t a. 0 ≤ t) max_steps
            (step d utf8_length o) _ (step-Leaves (max_steps - 1) max_steps some_left)
            (λ t first u. continue_run-Leaves t (max_steps - 1) first first.status u))
    | inr off ↦ rw off tt
  ]

  -- Whatever its calls answer, a run executes at most as many times as it has steps.
  pub run-executions :
      (max_steps : ℕ) (events : List Event) (rest : Program OrchestrationResult)
      → Trace (run d utf8_length o max_steps) events rest
      → executions events ≤ max_steps
  run-executions max_steps events rest t =
      let (left, e, _) =
        Trace-follow meter (λ t a. 0 ≤ t) max_steps (run d utf8_length o max_steps) rest events t
          (run-Leaves max_steps) in
      follow-executions max_steps events left e
