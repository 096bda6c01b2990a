-- ===== src/Review/Shape.antt =====
-- The shape of an attempt ledger: every attempt is settled, but the last may be in flight, and then
-- it is the one that the state calls pending.
use nokinc_factory.Prelude.{
  ◌≡◌, refl, sym, ap, ◌∙◌, ◌⊎◌, inl, inr, Bool, true, List, [], ◌∷◌, ◌++◌, Option, none, some, all,
  ok, arith, Option-cases, >>=-eq-ok, ok_injective, subst,
}
use nokinc_factory.Review.Session.{ReviewSeed, ReviewState, ReviewAttempt, Invocation, Completion}
use nokinc_factory.Review.Digests.{Digests}
use nokinc_factory.Review.Rules.{is_some}
use nokinc_factory.Review.Reducer.{reserve, complete}
use nokinc_factory.Review.Reserve.{reserve-Admits}
use nokinc_factory.Review.Settlement.{complete_pending-Settles}
use nokinc_factory.Review.Budget.{complete-eq-ok, account_facts}
use nokinc_factory.Review.Policy.{apply_completion, replay_attempt, replay}

abbrev pub is_settled : ReviewAttempt → Bool
is_settled a = is_some a.completion

-- An attempt whose call has not come back.
abbrev pub in_flight : Invocation → ReviewAttempt
in_flight call = record { invocation = call; completion = none }

module _ (d : Digests) (seed : ReviewSeed) where
  -- A ledger whose last call is in flight.
  pub record IsFlying (first : ReviewState) (attempts : List ReviewAttempt) (state : ReviewState)
      : Type 0 where
    pub before : List ReviewAttempt
    pub call : Invocation
    pub mid : ReviewState
    pub attempts_are : attempts ≡ before ++ in_flight call ∷ []
    pub before_settled : all is_settled before ≡ true
    pub before_replays : replay d seed first before ≡ ok mid
    pub call_reserved : reserve d seed mid call ≡ ok state
    pub call_pending : state.pending ≡ some call

  abbrev pub Shape : ReviewState → List ReviewAttempt → ReviewState → Type 0
  Shape first attempts state =
      ((state.pending ≡ none) × (all is_settled attempts ≡ true)) ⊎ IsFlying first attempts state

  complete-pending :
      (state : ReviewState) (c : Completion) (next : ReviewState)
      → complete d seed state c ≡ ok next
      → next.pending ≡ none
  complete-pending state c next h =
      let (call, pending, _, e) = complete-eq-ok d seed state c next h in
      let kept = (complete_pending-Settles d seed state call c).0 in
      rw e (kept.pending ∙ (account_facts d seed state call c).0)

  reserve-pending :
      (state : ReviewState) (call : Invocation) (next : ReviewState)
      → reserve d seed state call ≡ ok next
      → (state.pending ≡ none) × (next.pending ≡ some call)
  reserve-pending state call next h =
      let (e, a) = reserve-Admits d seed state call next h in (a.idle, rw e)

  flying_tail :
      (first mid : ReviewState) (a : ReviewAttempt) (rest : List ReviewAttempt)
      (state : ReviewState)
      → replay_attempt d seed first a ≡ ok mid
      → is_settled a ≡ true
      → Shape mid rest state
      → Shape first (a ∷ rest) state
  unfolding replay
  flying_tail first mid a rest state h settled (inl (idle, all_settled)) = inl (idle, ground arith)
  flying_tail first mid a rest state h settled (inr f) = inr (record {
    before = a ∷ f.before;
    call = f.call;
    mid = f.mid;
    attempts_are = ap (λ (t : List ReviewAttempt). a ∷ t) f.attempts_are;
    before_settled = ground (arith, f.before_settled);
    before_replays = rw h f.before_replays;
    call_reserved = f.call_reserved;
    call_pending = f.call_pending;
  })

  -- Nothing is reserved over a call in flight.
  flying_last :
      (first mid : ReviewState) (call : Invocation) (rest : List ReviewAttempt)
      (state : ReviewState)
      → reserve d seed first call ≡ ok mid
      → replay d seed mid rest ≡ ok state
      → Shape first (in_flight call ∷ rest) state
  unfolding replay replay_attempt
  flying_last first mid call [] state h r =
      let same = ok_injective r in
      inr (record {
        before = [];
        call = call;
        mid = first;
        attempts_are = refl;
        before_settled = refl;
        before_replays = refl;
        call_reserved = rw (← same) h;
        call_pending = rw (← same) (reserve-pending first call mid h).1;
      })
  flying_last first mid call (b ∷ rest) state h r =
      let pending = (reserve-pending first call mid h).1 in
      let (next, step, _) = >>=-eq-ok (replay_attempt d seed mid b) _ r in
      let (taken, again, _) = >>=-eq-ok (reserve d seed mid b.invocation) _ step in
      let idle = (reserve-pending mid b.invocation taken again).0 in absurd (ground arith)

  -- A step of the replay whose attempt is in flight is the reservation alone.
  attempt_in_flight :
      (state : ReviewState) (call : Invocation) (next : ReviewState)
      → replay_attempt d seed state (in_flight call) ≡ ok next
      → reserve d seed state call ≡ ok next
  unfolding replay_attempt
  attempt_in_flight state call next h =
      let (taken, r, h1) = >>=-eq-ok (reserve d seed state call) _ h in
      subst (λ (s : ReviewState). reserve d seed state call ≡ ok s) (ok_injective h1) r

  -- A step whose attempt is settled leaves nothing pending.
  settled-pending :
      (state : ReviewState) (a : ReviewAttempt) (next : ReviewState) (c : Completion)
      → a.completion ≡ some c
      → replay_attempt d seed state a ≡ ok next
      → next.pending ≡ none
  unfolding replay_attempt
  settled-pending state a next c e h =
      let (taken, _, h1) = >>=-eq-ok (reserve d seed state a.invocation) _ h in
      complete-pending taken c next
        (subst (λ (o : Option Completion). apply_completion d seed taken o ≡ ok next) e h1)

  -- When a ledger replays from an idle state, either the result is idle and every attempt is
  -- completed, or only the last attempt is open, all before it are completed, and its call is the
  -- pending one, reserved in the state before it.
  pub replay-Shape :
      (first : ReviewState) (attempts : List ReviewAttempt) (state : ReviewState)
      → first.pending ≡ none
      → replay d seed first attempts ≡ ok state
      → Shape first attempts state
  unfolding replay
  replay-Shape first [] state idle h = inl (rw (← (ok_injective h)) idle, refl)
  replay-Shape first (a ∷ rest) state idle h =
      let (mid, step, h1) = >>=-eq-ok (replay_attempt d seed first a) _ h in
      elim (Option-cases a.completion) [
        | inl e ↦
            let same : a ≡ in_flight a.invocation = cc in
            subst (λ (x : ReviewAttempt). Shape first (x ∷ rest) state) (sym same)
              (flying_last first mid a.invocation rest state
                (attempt_in_flight first a.invocation mid
                  (subst (λ (x : ReviewAttempt). replay_attempt d seed first x ≡ ok mid) same step))
                h1)
        | inr (c, e) ↦
            flying_tail first mid a rest state step (rw e refl)
              (replay-Shape mid rest state (settled-pending first a mid c e step) h1)
      ]
