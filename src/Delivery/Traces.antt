-- ===== src/Delivery/Traces.antt =====
-- The event chain of a work item and the limit on reserved turns,
-- adapters/postgres_workflow_store.py.
use nokinc_factory.Prelude.{
  ◌≡◌, refl, sym, ap, subst, ◌∙◌, ℕ, ◌+◌, ◌≤◌, Bool, true, false, not, ◌&&◌, List, [], ◌∷◌, ◌++◌,
  Option, some, first?, any, keep, length, length-append, ◌==◌, nat_eq, if◌then◌else◌, ok, require,
  >>=-eq-ok, >>-eq-ok, require-eq-ok, ok_injective, Bool-cases, inl, inr, arith,
}
use nokinc_factory.Delivery.Numbering.{
  Numbered, documents, Numbered-read_from, Numbered-append, Numbered-last_sequence,
  Numbered-by_sequence,
}
use nokinc_factory.Delivery.Workflow.{
  EventKind, kind_eq, WorkflowItem, WorkflowEvent, EventRow, WorkflowTables, WorkflowError,
  WorkflowDigests, is_item, is_of, last_sequence, is_reservation, used_turns, collides, found,
  read_item, event_row, insert_event, create_intake, record_event, record_chat_turn, leaves_turn,
  is_enabled, reserve_chat_turn, read_from, trace,
}

keep-append {ℓ} :
    {A : Type ℓ} (p : A → Bool) (xs ys : List A) → keep p (xs ++ ys) ≡ keep p xs ++ keep p ys
keep-append p [] ys = refl
keep-append p (x ∷ xs) ys = ground (arith, keep-append p xs ys)

module _ (d : WorkflowDigests) where
  -- The event that is appended to a table is the next of its work item, and of no other.
  appended :
      (tenant item n : ℕ) (event : WorkflowEvent) (events : List EventRow)
      → Numbered d 0 (keep (is_of tenant item) events)
      → (is_of tenant item (event_row d event n) ≡ true
          → n ≡ length (keep (is_of tenant item) events) + 1)
      → Numbered d 0 (keep (is_of tenant item) (events ++ event_row d event n ∷ []))
  appended tenant item n event events h k =
      let rows = keep (is_of tenant item) events in
      rw (keep-append (is_of tenant item) events (event_row d event n ∷ []))
        (elim (Bool-cases (is_of tenant item (event_row d event n))) [
          | inl own ↦ rw own (
              subst (λ (i : ℕ). Numbered d 0 (rows ++ event_row d event i ∷ []))
                (sym (k own ∙ omega arith)) (Numbered-append d 0 rows event h))
          | inr other ↦ rw other (subst (Numbered d 0) (sym (append_nil rows)) h)
        ])
    where
      append_nil : (rs : List EventRow) → rs ++ [] ≡ rs
      append_nil [] = refl
      append_nil (r ∷ rs) = ap (λ (t : List EventRow). r ∷ t) (append_nil rs)

  abbrev IsTraced : WorkflowTables → Type 0
  IsTraced tables = (tenant item : ℕ) → Numbered d 0 (keep (is_of tenant item) tables.events)

  insert_event-IsTraced :
      (event : WorkflowEvent) (before after : WorkflowTables)
      → IsTraced before
      → insert_event d event before ≡ ok after
      → IsTraced after
  unfolding insert_event
  insert_event-IsTraced event before after h e =
      let rows = keep (is_of event.tenant_id event.work_item_id) before.events in
      let row = event_row d event (last_sequence rows + 1) in
      let (_, e1) =
        >>-eq-ok (require (not (any (collides row) before.events)) WorkflowError.integrity_error) _
          e in
      let counted : last_sequence rows ≡ length rows =
        omega (arith, Numbered-last_sequence d 0 rows (h event.tenant_id event.work_item_id)) in
      subst IsTraced (ok_injective e1) (λ tenant item.
        appended tenant item (last_sequence rows + 1) event before.events (h tenant item) (λ own.
          let t : event.tenant_id ≡ tenant = ground arith in
          let i : event.work_item_id ≡ item = ground arith in
          ap (λ (k : ℕ). k + 1) counted
          ∙ ap (λ (x : ℕ). length (keep (is_of x event.work_item_id) before.events) + 1) t
          ∙ ap (λ (x : ℕ). length (keep (is_of tenant x) before.events) + 1) i))

  -- The tables that the operations lead to.
  pub data WorkflowReached : WorkflowTables → Type 0 where
    created : WorkflowReached (record { items = []; events = [] })
    taken_in :
        (item : WorkflowItem) (event : WorkflowEvent) (before after : WorkflowTables)
        → WorkflowReached before
        → create_intake d item event before ≡ ok after
        → WorkflowReached after
    recorded :
        (event : WorkflowEvent) (before after : WorkflowTables)
        → WorkflowReached before
        → record_event d event before ≡ ok after
        → WorkflowReached after
    chat_recorded :
        (event : WorkflowEvent) (before after : WorkflowTables)
        → WorkflowReached before
        → record_chat_turn d event before ≡ ok after
        → WorkflowReached after
    chat_reserved :
        (event : WorkflowEvent) (limit : Option ℕ) (before after : WorkflowTables)
        → WorkflowReached before
        → reserve_chat_turn d event limit before ≡ ok after
        → WorkflowReached after

  first_free :
      (event : WorkflowEvent) (rows : List EventRow)
      → Numbered d 0 (keep (is_of event.tenant_id event.work_item_id) rows)
      → any (collides (event_row d event 1)) rows ≡ false
      → length (keep (is_of event.tenant_id event.work_item_id) rows) ≡ 0
  first_free event rows h e = by_first rows e h
    where
      by_first :
          (rs : List EventRow)
          → any (collides (event_row d event 1)) rs ≡ false
          → Numbered d 0 (keep (is_of event.tenant_id event.work_item_id) rs)
          → length (keep (is_of event.tenant_id event.work_item_id) rs) ≡ 0
      by_first [] e h = refl
      by_first (r ∷ rs) e h = elim (Bool-cases (is_of event.tenant_id event.work_item_id r)) [
        | inl on ↦
            let first =
              subst
                (λ (b : Bool). Numbered d 0 (
                  if b
                  then r ∷ keep (is_of event.tenant_id event.work_item_id) rs
                  else keep (is_of event.tenant_id event.work_item_id) rs))
                on h in
            let s = ap (λ (q : EventRow). q.sequence) first.0 in absurd (ground (arith, s))
        | inr off ↦
            let rest =
              subst
                (λ (b : Bool). Numbered d 0 (
                  if b
                  then r ∷ keep (is_of event.tenant_id event.work_item_id) rs
                  else keep (is_of event.tenant_id event.work_item_id) rs))
                off h in
            rw off (by_first rs (ground arith) rest)
      ]

  create_intake-IsTraced :
      (item : WorkflowItem) (event : WorkflowEvent) (before after : WorkflowTables)
      → IsTraced before
      → create_intake d item event before ≡ ok after
      → IsTraced after
  unfolding create_intake
  create_intake-IsTraced item event before after h e =
      let (c, e1) =
        >>-eq-ok
          (require
            (not (any (is_item item.tenant_id item.work_item_id) before.items)
              && not (any (collides (event_row d event 1)) before.events))
            WorkflowError.denied)
          _ e in
      let passed = require-eq-ok _ _ c in
      let free : any (collides (event_row d event 1)) before.events ≡ false = ground arith in
      let none_yet = first_free event before.events (h event.tenant_id event.work_item_id) free in
      subst IsTraced (ok_injective e1) (λ tenant item.
        appended tenant item 1 event before.events (h tenant item) (λ own.
          let t : event.tenant_id ≡ tenant = ground arith in
          let i : event.work_item_id ≡ item = ground arith in
          ap (λ (k : ℕ). k + 1) (sym none_yet)
          ∙ ap (λ (x : ℕ). length (keep (is_of x event.work_item_id) before.events) + 1) t
          ∙ ap (λ (x : ℕ). length (keep (is_of tenant x) before.events) + 1) i))

  record_event-insert_event :
      (event : WorkflowEvent) (before after : WorkflowTables)
      → record_event d event before ≡ ok after
      → insert_event d event before ≡ ok after
  unfolding record_event
  record_event-insert_event event before after e =
      let (row, _, e1) =
        >>=-eq-ok (found (first? (is_item event.tenant_id event.work_item_id) before.items)) _ e in
      let (item, _, e2) = >>=-eq-ok (read_item d row) _ e1 in e2

  record_chat_turn-insert_event :
      (event : WorkflowEvent) (before after : WorkflowTables)
      → record_chat_turn d event before ≡ ok after
      → insert_event d event before ≡ ok after
  unfolding record_chat_turn
  record_chat_turn-insert_event event before after e =
      let (row, _, e1) =
        >>=-eq-ok (found (first? (is_item event.tenant_id event.work_item_id) before.items)) _ e in
      let (item, _, e2) = >>=-eq-ok (read_item d row) _ e1 in
      let (_, e3) =
        >>-eq-ok (require (item.created_by == event.actor_id) WorkflowError.denied) _ e2 in
      e3

  reserve_chat_turn-insert_event :
      (event : WorkflowEvent) (limit : Option ℕ) (before after : WorkflowTables)
      → reserve_chat_turn d event limit before ≡ ok after
      → (leaves_turn d limit event.tenant_id before.events ≡ true)
        × (insert_event d event before ≡ ok after)
  unfolding reserve_chat_turn
  reserve_chat_turn-insert_event event limit before after e =
      let (_, e0) = >>-eq-ok (require (is_enabled d limit) WorkflowError.turn_limit_exceeded) _ e in
      let (row, _, e1) =
        >>=-eq-ok (found (first? (is_item event.tenant_id event.work_item_id) before.items)) _ e0 in
      let (item, _, e2) = >>=-eq-ok (read_item d row) _ e1 in
      let (_, e3) =
        >>-eq-ok (require (item.created_by == event.actor_id) WorkflowError.denied) _ e2 in
      let (l, e4) =
        >>-eq-ok
          (require (leaves_turn d limit event.tenant_id before.events)
            WorkflowError.turn_limit_exceeded)
          _ e3 in
      (require-eq-ok _ _ l, e4)

  WorkflowReached-IsTraced : (tables : WorkflowTables) → WorkflowReached tables → IsTraced tables
  WorkflowReached-IsTraced tables WorkflowReached.created = λ tenant item. tt
  WorkflowReached-IsTraced tables (WorkflowReached.taken_in item event before after r e) =
      create_intake-IsTraced item event before after (WorkflowReached-IsTraced before r) e
  WorkflowReached-IsTraced tables (WorkflowReached.recorded event before after r e) =
      insert_event-IsTraced event before after (WorkflowReached-IsTraced before r)
        (record_event-insert_event event before after e)
  WorkflowReached-IsTraced tables (WorkflowReached.chat_recorded event before after r e) =
      insert_event-IsTraced event before after (WorkflowReached-IsTraced before r)
        (record_chat_turn-insert_event event before after e)
  WorkflowReached-IsTraced tables (WorkflowReached.chat_reserved event limit before after r e) =
      insert_event-IsTraced event before after (WorkflowReached-IsTraced before r)
        (reserve_chat_turn-insert_event event limit before after e).1

  -- In every tables that intakes, recorded events, recorded chat turns and reserved chat turns
  -- lead to from empty ones, `trace` of any tenant and work item returns the stored events of all
  -- its rows in the order in which they were appended.
  pub WorkflowReached-trace :
      (tables : WorkflowTables) (tenant item : ℕ)
      → WorkflowReached tables
      → trace d tenant item tables ≡ ok (documents d (keep (is_of tenant item) tables.events))
  unfolding trace
  WorkflowReached-trace tables tenant item r =
      let rows = keep (is_of tenant item) tables.events in
      let traced = WorkflowReached-IsTraced tables r tenant item in
      ap (read_from d 1) (Numbered-by_sequence d 0 rows traced) ∙ Numbered-read_from d 0 rows traced

  -- A turn whose event is a reservation and which is reserved under a limit makes the tenant's
  -- reserved turns one more, and they are then at most the limit.
  pub reserve_chat_turn-used_turns :
      (event : WorkflowEvent) (limit : ℕ) (before after : WorkflowTables)
      → event.kind ≡ EventKind.chat_turn_reserved
      → reserve_chat_turn d event (some limit) before ≡ ok after
      → (used_turns event.tenant_id after.events ≡ used_turns event.tenant_id before.events + 1)
        × (used_turns event.tenant_id after.events ≤ limit)
  unfolding insert_event
  reserve_chat_turn-used_turns event limit before after k e =
      let (left, i) = reserve_chat_turn-insert_event event (some limit) before after e in
      let rows = keep (is_of event.tenant_id event.work_item_id) before.events in
      let row = event_row d event (last_sequence rows + 1) in
      let (_, e1) =
        >>-eq-ok (require (not (any (collides row) before.events)) WorkflowError.integrity_error) _
          i in
      let same =
        ap (λ (t : WorkflowTables). used_turns event.tenant_id t.events) (ok_injective e1) in
      let split =
        ap (length {A = EventRow})
          (keep-append (is_reservation event.tenant_id) before.events (row ∷ [])) in
      let sum =
        length-append (keep (is_reservation event.tenant_id) before.events)
          (keep (is_reservation event.tenant_id) (row ∷ [])) in
      let reserved = (kind_eq.beq_iff event.kind EventKind.chat_turn_reserved).1 k in
      let one : length (keep (is_reservation event.tenant_id) (row ∷ [])) ≡ 1 =
        ground (arith, reserved) in
      let more : used_turns event.tenant_id after.events
          ≡ used_turns event.tenant_id before.events + 1 =
        sym same ∙ split ∙ sum ∙ omega (arith, one) in
      (more, ground (arith, more, left))
