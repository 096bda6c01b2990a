-- ===== src/Orchestration/Guards.antt =====
-- What a coordinator of application/review.py has before it dispatches a call.
use nokinc_factory.Prelude.{
  ◌≡◌, refl, sym, ap, subst, ◌∙◌, ℕ, zero, suc, ◌-◌, Bool, true, false, ◌&&◌, List, Option, none,
  some, option_eq, ◌==◌, if◌then◌else◌, leb, Bool-cases, inl, inr, arith, ok, err,
}
use nokinc_factory.Review.Artifact.{Moment, ArtifactRef, artifact_eq, scope_eq}
use nokinc_factory.Review.Session.{
  Invocation, invocation_eq, ReviewSession, ReviewDecision, ExecutionStop, InvocationReceipt,
  session_eq,
}
use nokinc_factory.Review.Digests.{Digests}
use nokinc_factory.Review.Rules.{Checked}
use nokinc_factory.Review.Policy.{
  validate_session, evaluate, complete_invocation, reserve_invocation,
}
use nokinc_factory.Orchestration.Programs.{
  Call, Reply, Program, returns, raised, call, ◌>>=◌, checked, given, Event, Trace, Monitor, follow,
  Keeps, Keeps-bind, Trace-follow,
}
use nokinc_factory.Orchestration.Returns.{normalize_result}
use nokinc_factory.Orchestration.Steps.{
  ReviewOrchestrator, OrchestrationResult, RunStatus, outside_window, stop_at, current, decision,
  stop_after, dispatch_stop, settled, settle, execute, dispatch, commit, reserve, proceed, step,
  continue_run, run, kind_of, actor_of, is_final, is_repair,
}

-- Whether a call is not an execution.
abbrev pub Quiet : Call → Type 0
Quiet (Call.execute request) = ⊥
Quiet _ = Unit {0}

-- A program that executes nothing.
abbrev pub Silent : {A : Type 0} → Program A → Type 0
Silent (returns a) = Unit {0}
Silent raised = Unit {0}
Silent (call c next) = Quiet c × ((r : Reply c) → Silent (next r))

pub Silent-bind :
    {A B : Type 0} (p : Program A) (next : A → Program B)
    → Silent p
    → ((a : A) → Silent (next a))
    → Silent (p >>= next)
Silent-bind (returns a) next h k = k a
Silent-bind raised next h k = tt
Silent-bind (call c reply) next h k = (h.0, λ r. Silent-bind (reply r) next (h.1 r) k)

pub checked-Silent : {A : Type 0} (c : Checked A) → Silent (checked c)
checked-Silent (ok a) = tt
checked-Silent (err e) = tt

pub given-Silent : {A : Type 0} (o : Option A) → Silent (given o)
given-Silent none = tt
given-Silent (some a) = tt

-- What a monitor that only watches executions makes of a program without any.
pub Silent-Keeps :
    {S A : Type 0} (m : Monitor S)
    → ((s : S) (c : Call) (r : Reply c) → Quiet c → (t : S) × (m s c r ≡ some t))
    → (s : S) (p : Program A) → Silent p
    → Keeps m (λ t a. Unit {0}) s p
Silent-Keeps m total s (returns a) h = tt
Silent-Keeps m total s raised h = tt
Silent-Keeps m total s (call c next) h =
    λ r. let (t, e) = total s c r h.0 in (t, e, Silent-Keeps m total t (next r) (h.1 r))

module _ (d : Digests) (utf8_length : ℕ → Option ℕ) (o : ReviewOrchestrator) where
  pub current-Silent : Silent (current d utf8_length o)
  unfolding current
  current-Silent = (
    tt,
    λ loaded. Silent-bind (given loaded) _ (given-Silent loaded) (λ stored.
        Silent-bind (checked (validate_session d stored)) _
          (checked-Silent (validate_session d stored)) (λ session. own session)),
  )
    where
      own :
          (session : ReviewSession)
          → Silent (if session.seed.scope == o.scope then returns session else raised)
      own session = elim (Bool-cases (session.seed.scope == o.scope)) [
        | inl on ↦ rw on tt
        | inr off ↦ rw off tt
      ]

  pub decision-Silent : (session : ReviewSession) → Silent (decision d utf8_length o session)
  unfolding decision
  decision-Silent session =
      (tt, λ observed. (tt, λ now. checked-Silent (evaluate d session observed now)))

  pub stop_after-Silent :
      (pending : ReviewSession) (i : Invocation) (allowed : Bool)
      → Silent (stop_after d utf8_length o pending i allowed)
  unfolding stop_after
  stop_after-Silent pending i false = tt
  stop_after-Silent pending i true = (tt, λ observed. (tt, λ now. tt))

  pub dispatch_stop-Silent :
      (pending : ReviewSession) (i : Invocation) → Silent (dispatch_stop d utf8_length o pending i)
  unfolding dispatch_stop
  dispatch_stop-Silent pending i = (tt, λ allowed. stop_after-Silent pending i allowed)

  pub settle-Silent :
      (pending : ReviewSession) (i : Invocation) (receipt : Option InvocationReceipt)
      (output : Option ℕ) (stop : Option ExecutionStop)
      → Silent (settle d utf8_length o pending i receipt output stop)
  unfolding settle settled
  settle-Silent pending i receipt output stop = (
    tt,
    λ now.
        Silent-bind
          (checked (complete_invocation d pending i.invocation_id receipt output now stop)) _
          (checked-Silent _)
          (λ complete. (
            tt,
            λ accepted. Silent-bind (current d utf8_length o) _ current-Silent (λ actual.
                Silent-bind (decision d utf8_length o actual) _ (decision-Silent actual)
                  (λ decided. tt)),
          )),
  )

-- How far a coordinator has come towards a dispatch: it won a reservation, which it was then
-- authorized to execute, then saw its artifact unchanged, then was in time.
pub data Right : Type 0 where
  idle : Right
  reserved authorized confirmed timely : ReviewSession → Right

abbrev won : ReviewSession → Bool → Right
won updated true = Right.reserved updated
won updated false = Right.idle

abbrev allowed_to : Right → Invocation → Bool → Right
allowed_to (Right.reserved s) i true =
    if s.state.pending == some i then Right.authorized s else Right.idle
allowed_to right i granted = Right.idle

abbrev seen : Right → ArtifactRef → Right
seen (Right.authorized s) artifact =
    if artifact == s.state.artifact then Right.confirmed s else Right.idle
seen right artifact = right

abbrev in_time : ReviewSession → Option Invocation → Moment → Right
in_time s none now = Right.idle
in_time s (some i) now = if outside_window s i now then Right.idle else Right.timely s

abbrev told : Right → Moment → Right
told (Right.confirmed s) now = in_time s s.state.pending now
told right now = right

abbrev spent : Right → Invocation → Option Right
spent (Right.timely s) i = if s.state.pending == some i then some Right.idle else none
spent right i = none

stop-timely :
    (pending : ReviewSession) (i : Invocation) (observed : ArtifactRef) (now : Moment)
    → pending.state.pending ≡ some i
    → stop_at pending i observed now ≡ none
    → told (seen (Right.authorized pending) observed) now ≡ Right.timely pending
unfolding stop_at
stop-timely pending i observed now own e = elim (Bool-cases (observed == pending.state.artifact)) [
  | inl same ↦ elim (Bool-cases (outside_window pending i now)) [
    | inl late ↦ cc
    | inr fits ↦ rw same (rw own (rw fits refl))
  ]
  | inr other ↦ absurd (ground arith)
]

-- The right to dispatch: an execution is refused unless the right to it stands, and takes it away.
unfoldable pub guard : Monitor Right
guard right (Call.load_current scope) r = some right
guard right (Call.observe scope key) artifact = some (seen right artifact)
guard right Call.clock now = some (told right now)
guard right Call.new_invocation_id id = some right
guard right (Call.authorize i) granted = some (allowed_to right i granted)
guard right (Call.compare_and_reserve scope expected updated budget) answer =
    some (won updated answer)
guard right (Call.execute request) r = spent right request.invocation

guard-total : (s : Right) (c : Call) (r : Reply c) → Quiet c → (t : Right) × (guard s c r ≡ some t)
unfolding guard
guard-total s (Call.load_current scope) r q = (s, refl)
guard-total s (Call.observe scope key) r q = (_, refl)
guard-total s Call.clock r q = (_, refl)
guard-total s Call.new_invocation_id r q = (_, refl)
guard-total s (Call.authorize i) r q = (_, refl)
guard-total s (Call.compare_and_reserve scope expected updated budget) r q = (_, refl)
guard-total s (Call.execute request) r q = absurd q

abbrev Guarded : {A : Type 0} → Right → Program A → Type 0
Guarded right p = Keeps guard (λ t a. Unit {0}) right p

silent : {A : Type 0} (right : Right) (p : Program A) → Silent p → Guarded right p
silent right p h = Silent-Keeps guard guard-total right p h

after-Silent :
    {A B : Type 0} (right : Right) (p : Program A) (next : A → Program B)
    → Silent p
    → ((t : Right) (a : A) → Guarded t (next a))
    → Guarded right (p >>= next)
after-Silent right p next h k =
    Keeps-bind guard (λ t a. Unit {0}) (λ t a. Unit {0}) right p next (silent right p h)
      (λ t a u. k t a)

given-Guarded :
    {A B : Type 0} (right : Right) (o : Option A) (next : A → Program B)
    → ((a : A) → o ≡ some a → Guarded right (next a))
    → Guarded right (given o >>= next)
given-Guarded right none next k = tt
given-Guarded right (some a) next k = k a refl

module _ (d : Digests) (utf8_length : ℕ → Option ℕ) (o : ReviewOrchestrator) where
  settle-Guarded :
      (right : Right) (pending : ReviewSession) (i : Invocation)
      (receipt : Option InvocationReceipt) (output : Option ℕ) (stop : Option ExecutionStop)
      → Guarded right (settle d utf8_length o pending i receipt output stop)
  settle-Guarded right pending i receipt output stop =
      silent right (settle d utf8_length o pending i receipt output stop)
        (settle-Silent d utf8_length o pending i receipt output stop)

  execute-Guarded :
      (right : Right) (pending : ReviewSession) (i : Invocation) (stop : Option ExecutionStop)
      → pending.state.pending ≡ some i
      → (stop ≡ none → right ≡ Right.timely pending)
      → Guarded right (execute d utf8_length o pending i stop)
  unfolding execute guard
  execute-Guarded right pending i (some stop) own h =
      settle-Guarded right pending i none none (some stop)
  execute-Guarded right pending i none own h = λ r.
      let normal = normalize_result utf8_length r in
      let holds = (option_eq.beq_iff pending.state.pending (some i)).1 own in
      (
        Right.idle,
        ap (λ (s : Right). spent s i) (h refl) ∙ rw holds refl,
        settle-Guarded Right.idle pending i normal.receipt normal.output normal.stop,
      )

  -- What is left of `_dispatch_stop` ends without a stop only in time with an unchanged artifact.
  stop_after-Guarded :
      (pending : ReviewSession) (i : Invocation) (granted : Bool)
      → pending.state.pending ≡ some i
      → Keeps guard
          (λ t stop. stop ≡ none → t ≡ Right.timely pending)
          (allowed_to (Right.reserved pending) i granted)
          (stop_after d utf8_length o pending i granted)
  unfolding stop_after guard stop_at
  stop_after-Guarded pending i false own = λ e. cc
  stop_after-Guarded pending i true own =
      let holds = (option_eq.beq_iff pending.state.pending (some i)).1 own in
      rw holds
        (λ observed. (_, refl, λ now. (_, refl, λ e. stop-timely pending i observed now own e)))

  dispatch_stop-Guarded :
      (pending : ReviewSession) (i : Invocation)
      → pending.state.pending ≡ some i
      → Keeps guard
          (λ t stop. stop ≡ none → t ≡ Right.timely pending)
          (Right.reserved pending)
          (dispatch_stop d utf8_length o pending i)
  unfolding dispatch_stop guard
  dispatch_stop-Guarded pending i own = λ granted. (
    allowed_to (Right.reserved pending) i granted,
    refl,
    stop_after-Guarded pending i granted own,
  )

  dispatch-Guarded :
      (right : Right) (pending : ReviewSession) (i : Invocation) (answer : Bool)
      → pending.state.pending ≡ some i
      → (answer ≡ true → right ≡ Right.reserved pending)
      → Guarded right (dispatch d utf8_length o pending i answer)
  unfolding dispatch
  dispatch-Guarded right pending i false own h =
      after-Silent right (current d utf8_length o) _ (current-Silent d utf8_length o) (λ t actual.
        after-Silent t (decision d utf8_length o actual) _ (decision-Silent d utf8_length o actual)
          (λ u decided. tt))
  dispatch-Guarded right pending i true own h =
      subst
        (λ (s : Right).
          Guarded s (dispatch_stop d utf8_length o pending i >>= execute d utf8_length o pending i))
        (sym (h refl))
        (Keeps-bind guard _ _ (Right.reserved pending) (dispatch_stop d utf8_length o pending i) _
          (dispatch_stop-Guarded pending i own)
          (λ t stop k. execute-Guarded t pending i stop own k))

  commit-Guarded :
      (right : Right) (session pending : ReviewSession) (i : Invocation) (allowed : Bool)
      → pending.state.pending ≡ some i
      → Guarded right (commit d utf8_length o session pending i allowed)
  unfolding commit guard
  commit-Guarded right session pending i false own = tt
  commit-Guarded right session pending i true own = λ answer. (
    won pending answer,
    refl,
    dispatch-Guarded (won pending answer) pending i answer own (λ e. ap (won pending) e),
  )

  reserve-Guarded :
      (right : Right) (session : ReviewSession) (repair : Bool)
      → Guarded right (reserve d utf8_length o session repair)
  unfolding reserve guard
  reserve-Guarded right session repair = given-Guarded right (actor_of session repair) _ (λ actor e.
      λ id. (
        right,
        refl,
        λ now. (
          told right now,
          refl,
          after-Silent (told right now)
              (checked (reserve_invocation d session id (kind_of repair) actor o.reservation now)) _
              (checked-Silent _)
              (λ t pending. given-Guarded t pending.state.pending _ (λ i own. λ allowed.
                (allowed_to t i allowed, refl, commit-Guarded _ session pending i allowed own))),
        ),
      ))

  proceed-Guarded :
      (u : Right) (session : ReviewSession) (decided : ReviewDecision) (pending : Option Invocation)
      → Guarded u (proceed d utf8_length o session decided pending)
  unfolding proceed
  proceed-Guarded u session decided (some i) = tt
  proceed-Guarded u session decided none = elim (Bool-cases (is_final decided.status)) [
    | inl on ↦ rw on tt
    | inr off ↦ rw off (reserve-Guarded u session (is_repair decided.status))
  ]

  step-Guarded : (right : Right) → Guarded right (step d utf8_length o)
  unfolding step
  step-Guarded right =
      after-Silent right (current d utf8_length o) _ (current-Silent d utf8_length o) (λ t session.
        after-Silent t (decision d utf8_length o session) _
          (decision-Silent d utf8_length o session)
          (λ u decided. proceed-Guarded u session decided session.state.pending))

  continue_run-Guarded :
      (right : Right) (n : ℕ) (result : OrchestrationResult) (status : RunStatus)
      → Guarded right (continue_run d utf8_length o n result status)
  unfolding continue_run
  continue_run-Guarded right zero result RunStatus.advanced = tt
  continue_run-Guarded right (suc n) result RunStatus.advanced =
      Keeps-bind guard (λ t a. Unit {0}) _ right (step d utf8_length o) _ (step-Guarded right)
        (λ t next u. continue_run-Guarded t n next next.status)
  continue_run-Guarded right zero result RunStatus.finished = tt
  continue_run-Guarded right zero result RunStatus.awaiting_settlement = tt
  continue_run-Guarded right zero result RunStatus.contended = tt
  continue_run-Guarded right zero result RunStatus.paused = tt
  continue_run-Guarded right (suc n) result RunStatus.finished = tt
  continue_run-Guarded right (suc n) result RunStatus.awaiting_settlement = tt
  continue_run-Guarded right (suc n) result RunStatus.contended = tt
  continue_run-Guarded right (suc n) result RunStatus.paused = tt

  run-Guarded : (right : Right) (max_steps : ℕ) → Guarded right (run d utf8_length o max_steps)
  unfolding run
  run-Guarded right max_steps = elim (Bool-cases (leb 1 max_steps && leb max_steps 64)) [
    | inl on ↦ rw on (
        Keeps-bind guard (λ t a. Unit {0}) (λ t a. Unit {0}) right (step d utf8_length o) _
          (step-Guarded right)
          (λ t first u. continue_run-Guarded t (max_steps - 1) first first.status))
    | inr off ↦ rw off tt
  ]

  -- At any point of a run, whatever its calls answered, each execution so far followed a compare-
  -- and-reserve of this run that answered true for a session with that pending call, then a
  -- granted authorization of the call, then an observed artifact equal to the session's, then a
  -- time inside the call's and the unit's windows, with no other execution in between.
  pub run-guard :
      (max_steps : ℕ) (events : List Event) (rest : Program OrchestrationResult)
      → Trace (run d utf8_length o max_steps) events rest
      → (right : Right) × (follow guard Right.idle events ≡ some right)
  run-guard max_steps events rest t =
      let (right, e, _) =
        Trace-follow guard (λ t a. Unit {0}) Right.idle (run d utf8_length o max_steps) rest events
          t (run-Guarded Right.idle max_steps) in
      (right, e)
