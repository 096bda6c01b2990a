-- ===== src/Delivery/Leases.antt =====
-- The leases of the outbox of adapters/postgres_workflow_store.py.
use nokinc_factory.Prelude.{
  ◌≡◌, ◌≢◌, refl, sym, ap, subst, ℕ, ◌+◌, ◌*◌, ◌<◌, Bool, true, false, List, [], ◌∷◌, Option, none,
  some, All, keep, leb, nat_eq, option_eq, arith, ok, >>=-eq-ok, >>-eq-ok, if◌then◌else◌,
  Bool-cases, Option-cases, inl, inr,
}
use nokinc_factory.Delivery.Tables.{
  OutboxStatus, outbox_status_eq, OutboxRow, has_key, update, is_claimable, oldest, claim_row,
  is_held, ack_outbox, read_outbox, claim_found, claim_outbox,
}

oldest-All :
    (p : OutboxRow → Bool) (P : OutboxRow → Type 0) (rows : List OutboxRow) (q : OutboxRow)
    → All P rows
    → oldest p rows ≡ some q
    → (p q ≡ true) × P q
unfolding oldest
oldest-All p P [] q h e = cc
oldest-All p P (r ∷ rs) q (h, hs) e = elim (Bool-cases (p r)) [
  | inr off ↦ oldest-All p P rs q hs (ground arith)
  | inl on ↦ elim (Option-cases (oldest p rs)) [
    | inl alone ↦ let is : r ≡ q = ground arith in (ground arith, subst P is h)
    | inr (other, found) ↦ elim (Bool-cases (leb r.created_at other.created_at)) [
      | inl first ↦ let is : r ≡ q = ground arith in (ground arith, subst P is h)
      | inr later ↦ oldest-All p P rs q hs (ground arith)
    ]
  ]
]

-- A row under the key is claimed by the worker until the expiry.
abbrev IsLeased : ℕ → ℕ → ℕ → ℕ → OutboxRow → Type 0
IsLeased tenant event worker expiry r =
    has_key tenant event r ≡ true
    → (r.status ≡ OutboxStatus.claimed)
      × (r.lease_expires_at ≡ some expiry)
      × (r.worker_id ≡ some worker)

update-IsLeased :
    (tenant event worker now expiry : ℕ) (rows : List OutboxRow)
    → All
        (IsLeased tenant event worker expiry)
        (update (has_key tenant event) (claim_row worker now expiry) rows)
unfolding update
update-IsLeased tenant event worker now expiry [] = tt
update-IsLeased tenant event worker now expiry (r ∷ rs) =
    (leased, update-IsLeased tenant event worker now expiry rs)
  where
    leased :
        IsLeased tenant event worker expiry
          (if has_key tenant event r then claim_row worker now expiry r else r)
    leased k = elim (Bool-cases (has_key tenant event r)) [
      | inl on ↦ (ground arith, ground arith, ground arith)
      | inr off ↦ absurd (ground arith)
    ]

module _ (identity : ℕ → ℕ → ℕ → ℕ → ℕ → ℕ) where
  -- What a claim that returned an entry did.
  claim_outbox-claims :
      (tenant worker now lease_seconds : ℕ) (rows next : List OutboxRow) (entry : OutboxRow)
      → claim_outbox identity tenant worker now lease_seconds rows ≡ ok (some entry, next)
      → (row : OutboxRow) × (oldest (is_claimable tenant now) rows ≡ some row)
        × (entry ≡ claim_row worker now (now + lease_seconds * 1000000) row)
        × (next
            ≡ update
                (has_key tenant row.event_id)
                (claim_row worker now (now + lease_seconds * 1000000))
                rows)
  unfolding claim_outbox claim_found read_outbox
  claim_outbox-claims tenant worker now lease_seconds rows next entry h =
      let expiry = now + lease_seconds * 1000000 in
      let (_, h1) =
        >>-eq-ok _
          (claim_found identity tenant worker now expiry (oldest (is_claimable tenant now) rows)
            rows)
          h in
      go (oldest (is_claimable tenant now) rows) refl h1
    where
      go :
          (found : Option OutboxRow)
          → oldest (is_claimable tenant now) rows ≡ found
          → claim_found identity tenant worker now (now + lease_seconds * 1000000) found rows
            ≡ ok (some entry, next)
          → (row : OutboxRow) × (oldest (is_claimable tenant now) rows ≡ some row)
            × (entry ≡ claim_row worker now (now + lease_seconds * 1000000) row)
            × (next
                ≡ update
                    (has_key tenant row.event_id)
                    (claim_row worker now (now + lease_seconds * 1000000))
                    rows)
      go none e q = absurd (ground arith)
      go (some row) e q =
          let (read, check, q1) =
            >>=-eq-ok
              (read_outbox identity (claim_row worker now (now + lease_seconds * 1000000) row)) _
              q in
          let (_, same) =
            >>-eq-ok _ (ok (claim_row worker now (now + lease_seconds * 1000000) row)) check in
          (row, e, cc, cc)

  claim_outbox-IsLeased :
      (tenant worker now lease_seconds : ℕ) (rows next : List OutboxRow) (entry : OutboxRow)
      → claim_outbox identity tenant worker now lease_seconds rows ≡ ok (some entry, next)
      → All (IsLeased tenant entry.event_id worker (now + lease_seconds * 1000000)) next
  claim_outbox-IsLeased tenant worker now lease_seconds rows next entry h =
      let expiry = now + lease_seconds * 1000000 in
      let (row, picked, is, made) =
        claim_outbox-claims tenant worker now lease_seconds rows next entry h in
      subst (λ e. All (IsLeased tenant e worker expiry) next)
        (sym (ap (λ (q : OutboxRow). q.event_id) is))
        (subst (All (IsLeased tenant row.event_id worker expiry)) (sym made)
          (update-IsLeased tenant row.event_id worker now expiry rows))

  -- After a claim returned an entry, a claim of the same tenant that starts from the table which
  -- the first one left, is made before the lease ends and returns an entry too, returns one of
  -- another event.
  pub claim_outbox-exclusive :
      (tenant worker now lease_seconds : ℕ) (rows next : List OutboxRow) (entry : OutboxRow)
      (other later other_seconds : ℕ) (last : List OutboxRow) (second : OutboxRow)
      → claim_outbox identity tenant worker now lease_seconds rows ≡ ok (some entry, next)
      → claim_outbox identity tenant other later other_seconds next ≡ ok (some second, last)
      → later < now + lease_seconds * 1000000
      → second.event_id ≢ entry.event_id
  unfolding is_claimable
  claim_outbox-exclusive tenant worker now lease_seconds rows next entry other later other_seconds
        last second h k before same =
      let leased = claim_outbox-IsLeased tenant worker now lease_seconds rows next entry h in
      let (row, picked, is, made) =
        claim_outbox-claims tenant other later other_seconds next last second k in
      let (open_now, held) = oldest-All (is_claimable tenant later) _ next row leased picked in
      let id = ap (λ (q : OutboxRow). q.event_id) is in
      let (status, lease, who) = held (ground arith) in ground arith

  not_held :
      (tenant event worker holder expiry : ℕ) (r : OutboxRow)
      → holder ≢ worker
      → IsLeased tenant event holder expiry r
      → is_held tenant event worker r ≡ false
  not_held tenant event worker holder expiry r other h =
      elim (Bool-cases (has_key tenant event r)) [
        | inl on ↦ let (status, lease, who) = h on in ground arith
        | inr off ↦ ground arith
      ]

  none_held :
      (tenant event worker holder expiry : ℕ) (rows : List OutboxRow)
      → holder ≢ worker
      → All (IsLeased tenant event holder expiry) rows
      → (keep (is_held tenant event worker) rows ≡ [])
        × (update
              (is_held tenant event worker)
              (λ r. record r { status = OutboxStatus.acked; lease_expires_at = none })
              rows
            ≡ rows)
  unfolding update
  none_held tenant event worker holder expiry [] other h = (refl, refl)
  none_held tenant event worker holder expiry (r ∷ rs) other (h, hs) =
      let (kept, same) = none_held tenant event worker holder expiry rs other hs in
      let miss = not_held tenant event worker holder expiry r other h in
      (rw miss kept, rw miss (ap (λ (t : List OutboxRow). r ∷ t) same))

  -- After a claim by one worker, an acknowledgement of that event by another worker answers false
  -- and changes nothing.
  pub ack_outbox-fenced :
      (tenant worker now lease_seconds : ℕ) (rows next : List OutboxRow) (entry : OutboxRow)
      (loser : ℕ)
      → claim_outbox identity tenant worker now lease_seconds rows ≡ ok (some entry, next)
      → worker ≢ loser
      → ack_outbox tenant entry.event_id loser next ≡ (false, next)
  unfolding ack_outbox
  ack_outbox-fenced tenant worker now lease_seconds rows next entry loser h other =
      let leased = claim_outbox-IsLeased tenant worker now lease_seconds rows next entry h in
      let (kept, same) = none_held tenant entry.event_id loser worker _ next other leased in
      rw (kept, same) refl
