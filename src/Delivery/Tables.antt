-- ===== src/Delivery/Tables.antt =====
-- The outbox operations of adapters/postgres_workflow_store.py. A table is the list of
-- its rows; a call is one transaction on it, which an error rolls back, so that a call that fails
-- gives no table. Times are numbers, identifiers and digests too.
use nokinc_factory.Prelude.{
  ℕ, ◌+◌, ◌*◌, Bool, false, not, ◌&&◌, ◌||◌, List, [], ◌∷◌, ◌++◌, Option, none, some, first?, any,
  keep, length, leb, Eq, ◌==◌, nat_eq, option_eq, eq_of_discrete, if◌then◌else◌, Result, ok, err,
  require, ◌>>=◌, ◌>>◌,
}

pub data OutboxStatus : Type 0 where
  pending claimed acked : OutboxStatus

unfoldable pub OutboxStatus-discrete : Discrete OutboxStatus
OutboxStatus-discrete = hlevel

instance abbrev pub outbox_status_eq : Eq OutboxStatus
outbox_status_eq = eq_of_discrete OutboxStatus-discrete

pub record OutboxRow : Type 0 where
  pub tenant_id : ℕ
  pub event_id : ℕ
  pub work_item_id : ℕ
  pub topic : ℕ
  pub payload_digest : ℕ
  pub status : OutboxStatus
  pub attempts : ℕ
  pub worker_id : Option ℕ
  pub lease_expires_at : Option ℕ
  pub created_at : ℕ
  pub updated_at : ℕ
  pub content_digest : ℕ

-- `WorkflowStoreDenied` and `ValueError`.
pub data StoreError : Type 0 where
  workflow_store_denied value_error : StoreError

abbrev pub has_key : ℕ → ℕ → OutboxRow → Bool
has_key tenant event r = r.tenant_id == tenant && r.event_id == event

-- `UPDATE … SET … WHERE p`.
unfoldable pub update :
    (OutboxRow → Bool) → (OutboxRow → OutboxRow) → List OutboxRow → List OutboxRow
update p f [] = []
update p f (r ∷ rs) = (if p r then f r else r) ∷ update p f rs

-- SQL compares no lease with a time as neither true nor false, so such a row is not selected.
abbrev pub has_expired : Option ℕ → ℕ → Bool
has_expired none now = false
has_expired (some expiry) now = leb expiry now

unfoldable pub is_claimable : ℕ → ℕ → OutboxRow → Bool
is_claimable tenant now r =
    r.tenant_id == tenant
    && (r.status == OutboxStatus.pending
        || r.status == OutboxStatus.claimed && has_expired r.lease_expires_at now)

abbrev pub older : OutboxRow → Option OutboxRow → OutboxRow
older r none = r
older r (some q) = if leb r.created_at q.created_at then r else q

-- `ORDER BY created_at`, the first; of rows created at one time the first in the table.
unfoldable pub oldest : (OutboxRow → Bool) → List OutboxRow → Option OutboxRow
oldest p [] = none
oldest p (r ∷ rs) = let rest = oldest p rs in if p r then some (older r rest) else rest

abbrev pub claim_row : ℕ → ℕ → ℕ → OutboxRow → OutboxRow
claim_row worker now expiry r = record r {
  status = OutboxStatus.claimed;
  attempts = r.attempts + 1;
  worker_id = some worker;
  lease_expires_at = some expiry;
  updated_at = now;
}

abbrev pub is_held : ℕ → ℕ → ℕ → OutboxRow → Bool
is_held tenant event worker r =
    has_key tenant event r && r.status == OutboxStatus.claimed && r.worker_id == some worker

-- The update, and whether it changed one row.
unfoldable pub ack_outbox : ℕ → ℕ → ℕ → List OutboxRow → Bool × List OutboxRow
unfolding update
ack_outbox tenant event worker rows = (
  length (keep (is_held tenant event worker) rows) == 1,
  update (is_held tenant event worker)
      (λ r. record r { status = OutboxStatus.acked; lease_expires_at = none }) rows,
)

-- `INSERT … ON CONFLICT DO NOTHING`.
unfoldable pub insert_new : OutboxRow → List OutboxRow → List OutboxRow
insert_new row rows =
    if any (has_key row.tenant_id row.event_id) rows then rows else rows ++ row ∷ []

-- `identity` is the digest of the five fields of `_outbox_identity`.
module _ (identity : ℕ → ℕ → ℕ → ℕ → ℕ → ℕ) where
  abbrev pub identity_of : OutboxRow → ℕ
  identity_of r = identity r.event_id r.tenant_id r.work_item_id r.topic r.payload_digest

  -- `_outbox`: a row is read only if its digest fits.
  unfoldable pub read_outbox : OutboxRow → Result StoreError OutboxRow
  read_outbox r = do
    require (identity_of r == r.content_digest) StoreError.workflow_store_denied
    ok r

  abbrev pub enqueued : ℕ → ℕ → ℕ → ℕ → ℕ → ℕ → OutboxRow
  enqueued tenant item event topic payload now = record {
    tenant_id = tenant;
    event_id = event;
    work_item_id = item;
    topic = topic;
    payload_digest = payload;
    status = OutboxStatus.pending;
    attempts = 0;
    worker_id = none;
    lease_expires_at = none;
    created_at = now;
    updated_at = now;
    content_digest = identity event tenant item topic payload;
  }

  -- The row under the key must be of the same item, topic and payload.
  unfoldable pub confirm :
      ℕ → ℕ → ℕ → Option OutboxRow → List OutboxRow → Result StoreError (OutboxRow × List OutboxRow)
  unfolding read_outbox
  confirm item topic payload none rows = err StoreError.workflow_store_denied
  confirm item topic payload (some row) rows = do
    existing ← read_outbox row
    require
        (existing.work_item_id == item
          && existing.topic == topic
          && existing.payload_digest == payload)
        StoreError.workflow_store_denied
    ok (existing, rows)

  -- `items` holds the tenant and id of each work item.
  unfoldable pub enqueue_outbox :
      List (ℕ × ℕ)
      → ℕ
      → ℕ
      → ℕ
      → ℕ
      → ℕ
      → ℕ
      → List OutboxRow
      → Result StoreError (OutboxRow × List OutboxRow)
  unfolding insert_new confirm
  enqueue_outbox items tenant item event topic payload now rows = do
    require (any (λ (i : ℕ × ℕ). i.0 == tenant && i.1 == item) items)
        StoreError.workflow_store_denied
    let next = insert_new (enqueued tenant item event topic payload now) rows
    confirm item topic payload (first? (has_key tenant event) next) next

  -- The row that is claimed is read back after its update.
  unfoldable pub claim_found :
      ℕ
      → ℕ
      → ℕ
      → ℕ
      → Option OutboxRow
      → List OutboxRow
      → Result StoreError (Option OutboxRow × List OutboxRow)
  unfolding read_outbox update
  claim_found tenant worker now expiry none rows = ok (none, rows)
  claim_found tenant worker now expiry (some row) rows = do
    entry ← read_outbox (claim_row worker now expiry row)
    ok (some entry, update (has_key tenant row.event_id) (claim_row worker now expiry) rows)

  unfoldable pub claim_outbox :
      ℕ → ℕ → ℕ → ℕ → List OutboxRow → Result StoreError (Option OutboxRow × List OutboxRow)
  unfolding claim_found oldest is_claimable
  claim_outbox tenant worker now lease_seconds rows = do
    require (not (leb lease_seconds 0)) StoreError.value_error
    claim_found tenant worker now (now + lease_seconds * 1000000)
        (oldest (is_claimable tenant now) rows) rows
