-- ===== src/Tests/Delivery.antt =====
-- An outbox with one event that two workers claim, and the theorems on it.
use nokinc_factory.Prelude.{
  ◌≡◌, ◌≢◌, refl, ℕ, ◌+◌, false, [], ◌∷◌, some, ok, arith, ◌≤◌, ℕ_discrete,
}
use nokinc_factory.Delivery.Workflow.{
  EventKind, EventKind-discrete, WorkflowItem, WorkflowEvent, WorkflowTables, WorkflowDigests,
  last_sequence, used_turns, read_item, event_row, insert_event, create_intake, reserve_chat_turn,
  trace,
}
use nokinc_factory.Delivery.Traces.{
  WorkflowReached, WorkflowReached-trace, reserve_chat_turn-used_turns,
}
use nokinc_factory.Delivery.Tables.{
  OutboxStatus-discrete, OutboxRow, update, is_claimable, oldest, claim_row, ack_outbox,
  read_outbox, enqueued, insert_new, confirm, enqueue_outbox, claim_found, claim_outbox,
}
use nokinc_factory.Delivery.Leases.{claim_outbox-exclusive, ack_outbox-fenced}
use nokinc_factory.Delivery.Inbox.{InboxRow, recorded, record_new, read_inbox, agree, record_inbox}
use nokinc_factory.Delivery.Duplicates.{enqueue_outbox-twice}

abbrev identity : ℕ → ℕ → ℕ → ℕ → ℕ → ℕ
identity event tenant item topic payload = event + payload

abbrev first : OutboxRow
first = enqueued identity 1 2 3 4 5 100

abbrev second : OutboxRow
second = enqueued identity 1 2 6 4 5 200

enqueues : enqueue_outbox identity ((1, 2) ∷ []) 1 2 3 4 5 100 [] ≡ ok (first, first ∷ [])
unfolding enqueue_outbox insert_new confirm read_outbox
enqueues = refl

enqueue_outbox-twice_example :
    enqueue_outbox identity ((1, 2) ∷ []) 1 2 3 4 5 900 (first ∷ []) ≡ ok (first, first ∷ [])
enqueue_outbox-twice_example =
    enqueue_outbox-twice identity ((1, 2) ∷ []) 1 2 3 4 5 100 900 [] (first ∷ []) first enqueues

-- The first claim lasts from 1000 to 2001000.
abbrev claimed : OutboxRow
claimed = claim_row 7 1000 2001000 first

claims :
    claim_outbox identity 1 7 1000 2 (first ∷ second ∷ [])
    ≡ ok (some claimed, claimed ∷ second ∷ [])
unfolding claim_outbox claim_found oldest is_claimable read_outbox update OutboxStatus-discrete
claims = refl

claims_next :
    claim_outbox identity 1 8 5000 2 (claimed ∷ second ∷ [])
    ≡ ok (some (claim_row 8 5000 2005000 second), claimed ∷ claim_row 8 5000 2005000 second ∷ [])
unfolding claim_outbox claim_found oldest is_claimable read_outbox update OutboxStatus-discrete
claims_next = refl

claim_outbox-exclusive_example : second.event_id ≢ first.event_id
claim_outbox-exclusive_example =
    claim_outbox-exclusive identity 1 7 1000 2 (first ∷ second ∷ []) (claimed ∷ second ∷ []) claimed
      8 5000 2 (claimed ∷ claim_row 8 5000 2005000 second ∷ []) (claim_row 8 5000 2005000 second)
      claims claims_next (omega arith)

ack_outbox-fenced_example :
    ack_outbox 1 claimed.event_id 8 (claimed ∷ second ∷ []) ≡ (false, claimed ∷ second ∷ [])
ack_outbox-fenced_example =
    ack_outbox-fenced identity 1 7 1000 2 (first ∷ second ∷ []) (claimed ∷ second ∷ []) claimed 8
      claims (λ e. absurd (omega arith))

abbrev inbox_identity : ℕ → ℕ → ℕ → ℕ → ℕ
inbox_identity event tenant source payload = event + payload

abbrev arrived : InboxRow
arrived = recorded inbox_identity 1 3 4 5 100

records : record_inbox inbox_identity 1 3 4 5 100 [] ≡ ok (arrived, arrived ∷ [])
unfolding record_inbox record_new agree read_inbox
records = refl

-- An item's digest is its id and an event's digest its event id here.
abbrev workflow_digests : WorkflowDigests
workflow_digests = record {
  item = λ (i : WorkflowItem). i.work_item_id;
  event = λ (e : WorkflowEvent). e.event_id;
}

abbrev talk : WorkflowItem
talk = record { work_item_id = 2; tenant_id = 1; created_by = 8; created_at = 100 }

abbrev workflow_event : ℕ → EventKind → WorkflowEvent
workflow_event id kind = record {
  event_id = id;
  tenant_id = 1;
  work_item_id = 2;
  actor_id = 8;
  kind = kind;
  occurred_at = 100;
  payload_digest = 5;
}

abbrev taken : WorkflowTables
taken = record {
  items =
      record { tenant_id = 1; work_item_id = 2; document = talk; digest = 2; format_version = 1 }
      ∷ [];
  events = event_row workflow_digests (workflow_event 50 EventKind.intake) 1 ∷ [];
}

abbrev turned : WorkflowTables
turned = record taken {
  events =
      event_row workflow_digests (workflow_event 50 EventKind.intake) 1
      ∷ event_row workflow_digests (workflow_event 51 EventKind.chat_turn_reserved) 2
      ∷ [];
}

taking_in :
    create_intake workflow_digests talk
      (workflow_event 50 EventKind.intake)
      (record { items = []; events = [] })
    ≡ ok taken
unfolding create_intake ℕ_discrete
taking_in = refl

turning :
    reserve_chat_turn workflow_digests
      (workflow_event 51 EventKind.chat_turn_reserved)
      (some 1)
      taken
    ≡ ok turned
unfolding reserve_chat_turn insert_event read_item last_sequence EventKind-discrete ℕ_discrete
turning = refl

reached : WorkflowReached workflow_digests turned
reached =
    WorkflowReached.chat_reserved (workflow_event 51 EventKind.chat_turn_reserved) (some 1) taken
      turned
      (WorkflowReached.taken_in talk (workflow_event 50 EventKind.intake)
        (record { items = []; events = [] }) taken WorkflowReached.created taking_in)
      turning

WorkflowReached-trace_example :
    trace workflow_digests 1 2 turned
    ≡ ok (workflow_event 50 EventKind.intake ∷ workflow_event 51 EventKind.chat_turn_reserved ∷ [])
unfolding ℕ_discrete
WorkflowReached-trace_example = WorkflowReached-trace workflow_digests turned 1 2 reached

reserve_chat_turn-used_turns_example :
    (used_turns 1 turned.events ≡ used_turns 1 taken.events + 1) × (used_turns 1 turned.events ≤ 1)
reserve_chat_turn-used_turns_example =
    reserve_chat_turn-used_turns workflow_digests (workflow_event 51 EventKind.chat_turn_reserved) 1
      taken turned refl turning
