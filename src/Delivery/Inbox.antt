-- ===== src/Delivery/Inbox.antt =====
-- The inbox operations of adapters/postgres_workflow_store.py, and its deduplication. The table is
-- the list of its rows, of which no two have the same tenant and event.
use nokinc_factory.Prelude.{
  ◌≡◌, refl, sym, ap, ◌∙◌, ℕ, Bool, true, false, ◌&&◌, List, [], ◌∷◌, ◌++◌, Option, none, some, any,
  first?, keep, length, Eq, ◌==◌, nat_eq, eq_of_discrete, if◌then◌else◌, Result, ok, err, require,
  ◌>>=◌, ◌>>◌, arith, >>=-eq-ok, >>-eq-ok, Bool-cases, inl, inr,
}
use nokinc_factory.Delivery.Tables.{StoreError}

pub data InboxStatus : Type 0 where
  received processed : InboxStatus

unfoldable pub InboxStatus-discrete : Discrete InboxStatus
InboxStatus-discrete = hlevel

instance abbrev pub inbox_status_eq : Eq InboxStatus
inbox_status_eq = eq_of_discrete InboxStatus-discrete

pub record InboxRow : Type 0 where
  pub tenant_id : ℕ
  pub event_id : ℕ
  pub source : ℕ
  pub payload_digest : ℕ
  pub status : InboxStatus
  pub received_at : ℕ
  pub processed_at : Option ℕ
  pub content_digest : ℕ

abbrev pub is_event : ℕ → ℕ → InboxRow → Bool
is_event tenant event r = r.tenant_id == tenant && r.event_id == event

abbrev pub is_unprocessed : ℕ → ℕ → InboxRow → Bool
is_unprocessed tenant event r = is_event tenant event r && r.status == InboxStatus.received

abbrev pub mark_row : ℕ → InboxRow → InboxRow
mark_row now r = record r { status = InboxStatus.processed; processed_at = some now }

unfoldable pub process_rows : ℕ → ℕ → ℕ → List InboxRow → List InboxRow
process_rows tenant event now [] = []
process_rows tenant event now (r ∷ rs) =
    (if is_unprocessed tenant event r then mark_row now r else r) ∷ process_rows tenant event now rs

-- The update, and whether it changed one row.
unfoldable pub mark_inbox_processed : ℕ → ℕ → ℕ → List InboxRow → Bool × List InboxRow
unfolding process_rows
mark_inbox_processed tenant event now rows =
    (length (keep (is_unprocessed tenant event) rows) == 1, process_rows tenant event now rows)

unfoldable pub record_new : InboxRow → List InboxRow → List InboxRow
record_new row rows =
    if any (is_event row.tenant_id row.event_id) rows then rows else rows ++ row ∷ []

-- No row of an event is unprocessed after it was marked.
none_unprocessed :
    (tenant event now again : ℕ) (rows : List InboxRow)
    → (keep (is_unprocessed tenant event) (process_rows tenant event now rows) ≡ [])
      × (process_rows tenant event again (process_rows tenant event now rows)
          ≡ process_rows tenant event now rows)
unfolding process_rows
none_unprocessed tenant event now again [] = (refl, refl)
none_unprocessed tenant event now again (r ∷ rs) =
    let (kept, same) = none_unprocessed tenant event now again rs in
    elim (Bool-cases (is_unprocessed tenant event r)) [
      | inl on ↦
          let miss : is_unprocessed tenant event (mark_row now r) ≡ false = ground arith in
          (rw (on, miss) kept, rw (on, miss) (ap (λ (t : List InboxRow). mark_row now r ∷ t) same))
      | inr off ↦ (rw (off, off) kept, rw (off, off) (ap (λ (t : List InboxRow). r ∷ t) same))
    ]

-- Marking an event as processed after it was marked, at whatever time, answers false and changes
-- nothing.
pub mark_inbox_processed-twice :
    (tenant event now again : ℕ) (rows : List InboxRow)
    → mark_inbox_processed tenant event again (mark_inbox_processed tenant event now rows).1
      ≡ (false, (mark_inbox_processed tenant event now rows).1)
unfolding mark_inbox_processed
mark_inbox_processed-twice tenant event now again rows =
    let (kept, same) = none_unprocessed tenant event now again rows in rw (kept, same) refl

-- `identity` is the digest of the four fields of `_inbox_identity`.
module _ (identity : ℕ → ℕ → ℕ → ℕ → ℕ) where
  -- `_inbox`: a row is read only if its digest fits.
  unfoldable pub read_inbox : InboxRow → Result StoreError InboxRow
  read_inbox r = do
    require (identity r.event_id r.tenant_id r.source r.payload_digest == r.content_digest)
        StoreError.workflow_store_denied
    ok r

  abbrev pub recorded : ℕ → ℕ → ℕ → ℕ → ℕ → InboxRow
  recorded tenant event source payload now = record {
    tenant_id = tenant;
    event_id = event;
    source = source;
    payload_digest = payload;
    status = InboxStatus.received;
    received_at = now;
    processed_at = none;
    content_digest = identity event tenant source payload;
  }

  -- The row under the key must be of the same source and payload.
  unfoldable pub agree :
      ℕ → ℕ → Option InboxRow → List InboxRow → Result StoreError (InboxRow × List InboxRow)
  unfolding read_inbox
  agree source payload none rows = err StoreError.workflow_store_denied
  agree source payload (some row) rows = do
    existing ← read_inbox row
    require (existing.source == source && existing.payload_digest == payload)
        StoreError.workflow_store_denied
    ok (existing, rows)

  unfoldable pub record_inbox :
      ℕ → ℕ → ℕ → ℕ → ℕ → List InboxRow → Result StoreError (InboxRow × List InboxRow)
  unfolding record_new agree
  record_inbox tenant event source payload now rows =
      let next = record_new (recorded tenant event source payload now) rows in
      agree source payload (first? (is_event tenant event) next) next

  agree-eq-ok :
      (source payload : ℕ) (found : Option InboxRow) (rows next : List InboxRow) (row : InboxRow)
      → agree source payload found rows ≡ ok (row, next)
      → (found ≡ some row) × (rows ≡ next)
  unfolding agree read_inbox
  agree-eq-ok source payload none rows next row h = cc
  agree-eq-ok source payload (some r) rows next row h =
      let (x, read, h1) = >>=-eq-ok (read_inbox r) _ h in
      let (_, same) = >>-eq-ok _ (ok r) read in
      let (_, h2) = >>-eq-ok _ (ok (x, rows)) h1 in (cc, cc)

  event_known :
      (tenant event : ℕ) (rows : List InboxRow) (r : InboxRow)
      → first? (is_event tenant event) rows ≡ some r
      → any (is_event tenant event) rows ≡ true
  event_known tenant event [] r h = cc
  event_known tenant event (x ∷ xs) r h = ground (arith, event_known tenant event xs r)

  -- When an event was recorded, recording it again with the same source and payload at whatever
  -- time returns the row of the first record and changes nothing.
  pub record_inbox-twice :
      (tenant event source payload now again : ℕ) (rows next : List InboxRow) (row : InboxRow)
      → record_inbox tenant event source payload now rows ≡ ok (row, next)
      → record_inbox tenant event source payload again next ≡ ok (row, next)
  unfolding record_inbox record_new
  record_inbox-twice tenant event source payload now again rows next row h =
      let made = record_new (recorded tenant event source payload now) rows in
      let (found, same) =
        agree-eq-ok source payload (first? (is_event tenant event) made) made next row h in
      let there = ap (first? (is_event tenant event)) (sym same) ∙ found in
      let old = event_known tenant event next row there in
      let before =
        ap (λ t. agree source payload (first? (is_event tenant event) t) t) (sym same) ∙ h in
      rw old before
