-- ===== src/Orchestration/Programs.antt =====
-- A coordinator of application/review.py as the tree of its calls to what is injected into it: the
-- store, the executor, the artifact observer, the authorizer, the clock and the source of ids. A call
-- that raises ends the coordinator there, but for the two errors that it catches, which are replies.
use nokinc_factory.Prelude.{◌≡◌, refl, ℕ, Bool, List, [], ◌∷◌, Option, none, some, ok, err}
use nokinc_factory.Review.Artifact.{
  Identifier, Digest, Moment, ReviewScope, QualityContract, ArtifactRef,
}
use nokinc_factory.Review.Session.{
  Invocation, InvocationReceipt, FindingRecord, ResolutionRecord, ReviewSession,
}
use nokinc_factory.Review.Rules.{Checked}

pub record ExecutionRequest : Type 0 where
  pub invocation : Invocation
  pub contract : QualityContract
  pub artifact : ArtifactRef
  pub findings : List FindingRecord
  pub resolutions : List ResolutionRecord

-- What an adapter put into the field `receipt`: nothing, a receipt, or another value.
pub data ReceiptField : Type 0 where
  no_receipt : ReceiptField
  a_receipt : InvocationReceipt → ReceiptField
  not_a_receipt : ReceiptField

-- What it put into the field `output`: nothing, a report by the text of its JSON, a text, or another
-- value. Texts are names, as in a completion.
pub data OutputField : Type 0 where
  no_output : OutputField
  a_report : ℕ → OutputField
  a_text : ℕ → OutputField
  not_an_output : OutputField

-- What `execute` comes to: `ExecutorUnavailable`, an `ExecutionResult`, or another value.
pub data Returned : Type 0 where
  unavailable : Returned
  execution_result : ReceiptField → OutputField → Returned
  not_a_result : Returned

pub data Call : Type 0 where
  load_current : ReviewScope → Call
  observe : ReviewScope → Identifier → Call
  clock : Call
  new_invocation_id : Call
  authorize : Invocation → Call
  compare_and_reserve : ReviewScope → Option Digest → ReviewSession → Identifier → Call
  execute : ExecutionRequest → Call

-- The reply to a call; that to `authorize` is false when it raised `PermissionError`.
abbrev pub Reply : Call → Type 0
Reply (Call.load_current scope) = Option ReviewSession
Reply (Call.observe scope key) = ArtifactRef
Reply Call.clock = Moment
Reply Call.new_invocation_id = Identifier
Reply (Call.authorize invocation) = Bool
Reply (Call.compare_and_reserve scope expected updated budget) = Bool
Reply (Call.execute request) = Returned

pub data Program (A : Type 0) : Type 0 where
  returns : A → Program A
  raised : Program A
  call : (c : Call) → (Reply c → Program A) → Program A

infixl 5 ◌>>=◌
abbrev pub ◌>>=◌ : {A B : Type 0} → Program A → (A → Program B) → Program B
returns a >>= next = next a
raised >>= next = raised
call c reply >>= next = call c (λ r. reply r >>= next)

-- One call, whose reply is the result.
abbrev pub ask : (c : Call) → Program (Reply c)
ask c = call c returns

-- A validation that fails raises.
abbrev pub checked : {A : Type 0} → Checked A → Program A
checked (ok a) = returns a
checked (err e) = raised

abbrev pub given : {A : Type 0} → Option A → Program A
given none = raised
given (some a) = returns a

abbrev pub Event : Type 0
Event = (c : Call) × Reply c

-- The calls that a program makes with their replies, up to any point, and what is left of it.
pub data Trace {A : Type 0} : Program A → List Event → Program A → Type 0 where
  here : {p : Program A} → Trace p [] p
  after :
      {c : Call} {next : Reply c → Program A} {r : Reply c} {es : List Event} {rest : Program A}
      → Trace (next r) es rest
      → Trace (call c next) ((c, r) ∷ es) rest

-- A monitor follows the calls by a state, and refuses one by none.
abbrev pub Monitor : Type 0 → Type 0
Monitor S = S → (c : Call) → Reply c → Option S

module _ {S : Type 0} (m : Monitor S) where
  unfoldable pub follow : S → List Event → Option S
  follow s [] = some s
  follow s ((c, r) ∷ es) = elim (m s c r) [ none ↦ none | some t ↦ follow t es ]

  -- Whether a program's calls are accepted from a state, and its result and last state fit.
  abbrev pub Keeps : {A : Type 0} → (S → A → Type 0) → S → Program A → Type 0
  Keeps Q s (returns a) = Q s a
  Keeps Q s raised = Unit {0}
  Keeps Q s (call c next) = (r : Reply c) → (t : S) × (m s c r ≡ some t) × Keeps Q t (next r)

  pub Keeps-bind :
      {A B : Type 0} (Q : S → A → Type 0) (R : S → B → Type 0) (s : S) (p : Program A)
      (next : A → Program B)
      → Keeps Q s p
      → ((t : S) (a : A) → Q t a → Keeps R t (next a))
      → Keeps R s (p >>= next)
  Keeps-bind Q R s (returns a) next h k = k s a h
  Keeps-bind Q R s raised next h k = tt
  Keeps-bind Q R s (call c reply) next h k =
      λ r. let (t, e, rest) = h r in (t, e, Keeps-bind Q R t (reply r) next rest k)

  -- The monitor accepts whatever calls such a program makes.
  pub Trace-follow :
      {A : Type 0} (Q : S → A → Type 0) (s : S) (p rest : Program A) (es : List Event)
      → Trace p es rest
      → Keeps Q s p
      → (t : S) × (follow s es ≡ some t) × Keeps Q t rest
  unfolding follow
  Trace-follow Q s p rest es here h = (s, refl, h)
  Trace-follow Q s p rest es (after {c} {next} {r} {es = later} t) h =
      let (u, e, k) = h r in
      let (v, f, l) = Trace-follow Q u (next r) rest later t k in (v, rw (follow, e) f, l)
