-- ===== src/Delivery/Workflow.antt =====
-- The work items and their events in adapters/postgres_workflow_store.py, with the fields of
-- application/service.py that the store reads. Each operation is one transaction; the random ids that
-- it draws are arguments, and what an event carries beside its payload's digest is a number.
use nokinc_factory.Prelude.{
  ℕ, ◌+◌, Bool, true, not, ◌&&◌, ◌||◌, List, [], ◌∷◌, ◌++◌, Option, none, some, first?, any, keep,
  length, leb, max, if◌then◌else◌, Eq, ◌==◌, nat_eq, eq_of_discrete, Result, ok, err, require,
  ◌>>=◌, ◌>>◌,
}

pub data EventKind : Type 0 where
  intake gate_requested grounded_analysis_recorded chat_turn_recorded chat_turn_reserved : EventKind

unfoldable pub EventKind-discrete : Discrete EventKind
EventKind-discrete = hlevel

instance abbrev pub kind_eq : Eq EventKind
kind_eq = eq_of_discrete EventKind-discrete

pub record WorkflowItem : Type 0 where
  pub work_item_id : ℕ
  pub tenant_id : ℕ
  pub created_by : ℕ
  pub created_at : ℕ

pub record WorkflowEvent : Type 0 where
  pub event_id : ℕ
  pub tenant_id : ℕ
  pub work_item_id : ℕ
  pub actor_id : ℕ
  pub kind : EventKind
  pub occurred_at : ℕ
  pub payload_digest : ℕ

pub record ItemRow : Type 0 where
  pub tenant_id : ℕ
  pub work_item_id : ℕ
  pub document : WorkflowItem
  pub digest : ℕ
  pub format_version : ℕ

pub record EventRow : Type 0 where
  pub tenant_id : ℕ
  pub work_item_id : ℕ
  pub sequence : ℕ
  pub event_id : ℕ
  pub document : WorkflowEvent
  pub digest : ℕ
  pub kind : EventKind
  pub actor_id : ℕ

pub record WorkflowTables : Type 0 where
  pub items : List ItemRow
  pub events : List EventRow

-- `WorkflowStoreDenied`, `ChatModelTurnLimitExceeded`, and an insert that breaks a constraint.
pub data WorkflowError : Type 0 where
  denied turn_limit_exceeded integrity_error : WorkflowError

-- The digests of a stored item and a stored event.
pub record WorkflowDigests : Type 0 where
  pub item : WorkflowItem → ℕ
  pub event : WorkflowEvent → ℕ

abbrev pub is_item : ℕ → ℕ → ItemRow → Bool
is_item tenant item r = r.tenant_id == tenant && r.work_item_id == item

abbrev pub is_of : ℕ → ℕ → EventRow → Bool
is_of tenant item r = r.tenant_id == tenant && r.work_item_id == item

-- `max(sequence)`, 0 of no row.
unfoldable pub last_sequence : List EventRow → ℕ
last_sequence [] = 0
last_sequence (r ∷ rs) = max r.sequence (last_sequence rs)

abbrev pub is_reservation : ℕ → EventRow → Bool
is_reservation tenant r = r.tenant_id == tenant && r.kind == EventKind.chat_turn_reserved

-- The turns of a tenant that are reserved.
abbrev pub used_turns : ℕ → List EventRow → ℕ
used_turns tenant events = length (keep (is_reservation tenant) events)

-- The primary key and the unique event id.
abbrev pub collides : EventRow → EventRow → Bool
collides new r =
    r.event_id == new.event_id
    || is_of new.tenant_id new.work_item_id r && r.sequence == new.sequence

abbrev pub found : Option ItemRow → Result WorkflowError ItemRow
found none = err WorkflowError.denied
found (some r) = ok r

-- A row put into its place, after the rows with a lower sequence.
unfoldable pub place : EventRow → List EventRow → List EventRow
place r [] = r ∷ []
place r (x ∷ xs) =
    let rest = place r xs in if leb r.sequence x.sequence then r ∷ x ∷ xs else x ∷ rest

-- `order_by(workflow_events.c.sequence)`.
unfoldable pub by_sequence : List EventRow → List EventRow
unfolding place
by_sequence [] = []
by_sequence (r ∷ rs) = place r (by_sequence rs)

module _ (d : WorkflowDigests) where
  -- `_item`.
  unfoldable pub read_item : ItemRow → Result WorkflowError WorkflowItem
  read_item row = do
    require (row.format_version == 1) WorkflowError.denied
    require (d.item row.document == row.digest && row.document.tenant_id == row.tenant_id)
        WorkflowError.denied
    ok row.document

  -- `_event`.
  unfoldable pub read_event : EventRow → ℕ → Result WorkflowError WorkflowEvent
  read_event row expected_sequence = do
    require
        (row.sequence == expected_sequence
          && d.event row.document == row.digest
          && row.document.tenant_id == row.tenant_id
          && row.document.work_item_id == row.work_item_id
          && row.document.kind == row.kind
          && row.document.actor_id == row.actor_id)
        WorkflowError.denied
    ok row.document

  abbrev pub event_row : WorkflowEvent → ℕ → EventRow
  event_row event sequence = record {
    tenant_id = event.tenant_id;
    work_item_id = event.work_item_id;
    sequence = sequence;
    event_id = event.event_id;
    document = event;
    digest = d.event event;
    kind = event.kind;
    actor_id = event.actor_id;
  }

  -- The insert of an event after those of its work item.
  unfoldable pub insert_event : WorkflowEvent → WorkflowTables → Result WorkflowError WorkflowTables
  unfolding last_sequence
  insert_event event tables =
      let sequence =
        last_sequence (keep (is_of event.tenant_id event.work_item_id) tables.events) + 1 in
      let row = event_row event sequence in
      do
        require (not (any (collides row) tables.events)) WorkflowError.integrity_error
        ok (record tables { events = tables.events ++ row ∷ [] })

  unfoldable pub create_intake :
      WorkflowItem → WorkflowEvent → WorkflowTables → Result WorkflowError WorkflowTables
  create_intake item event tables = do
    require
        (not (any (is_item item.tenant_id item.work_item_id) tables.items)
          && not (any (collides (event_row event 1)) tables.events))
        WorkflowError.denied
    ok (record {
      items =
          tables.items
          ++ record {
            tenant_id = item.tenant_id;
            work_item_id = item.work_item_id;
            document = item;
            digest = d.item item;
            format_version = 1;
          }
            ∷ [];
      events = tables.events ++ event_row event 1 ∷ [];
    })

  -- `record_grounded_analysis` and `add_gate_request`, which differ in their event.
  unfoldable pub record_event : WorkflowEvent → WorkflowTables → Result WorkflowError WorkflowTables
  unfolding read_item insert_event
  record_event event tables = do
    row ← found (first? (is_item event.tenant_id event.work_item_id) tables.items)
    item ← read_item row
    insert_event event tables

  -- Only the creator's turns are recorded.
  unfoldable pub record_chat_turn :
      WorkflowEvent → WorkflowTables → Result WorkflowError WorkflowTables
  unfolding read_item insert_event
  record_chat_turn event tables = do
    row ← found (first? (is_item event.tenant_id event.work_item_id) tables.items)
    item ← read_item row
    require (item.created_by == event.actor_id) WorkflowError.denied
    insert_event event tables

  -- Whether a limit leaves a turn.
  abbrev pub leaves_turn : Option ℕ → ℕ → List EventRow → Bool
  leaves_turn none tenant events = true
  leaves_turn (some limit) tenant events = not (leb limit (used_turns tenant events))

  abbrev pub is_enabled : Option ℕ → Bool
  is_enabled none = true
  is_enabled (some limit) = leb 1 limit

  unfoldable pub reserve_chat_turn :
      WorkflowEvent → Option ℕ → WorkflowTables → Result WorkflowError WorkflowTables
  unfolding read_item insert_event
  reserve_chat_turn event limit tables = do
    require (is_enabled limit) WorkflowError.turn_limit_exceeded
    row ← found (first? (is_item event.tenant_id event.work_item_id) tables.items)
    item ← read_item row
    require (item.created_by == event.actor_id) WorkflowError.denied
    require (leaves_turn limit event.tenant_id tables.events) WorkflowError.turn_limit_exceeded
    insert_event event tables

  unfoldable pub read_from : ℕ → List EventRow → Result WorkflowError (List WorkflowEvent)
  unfolding read_event
  read_from n [] = ok []
  read_from n (r ∷ rs) =
      let rest = read_from (n + 1) rs in
      do event ← read_event r n; events ← rest; ok (event ∷ events)

  -- The events of a work item, by their sequence.
  unfoldable pub trace : ℕ → ℕ → WorkflowTables → Result WorkflowError (List WorkflowEvent)
  unfolding read_from by_sequence
  trace tenant item tables = read_from 1 (by_sequence (keep (is_of tenant item) tables.events))
