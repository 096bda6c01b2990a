-- ===== src/Delivery/Duplicates.antt =====
-- Repeated enqueues in adapters/postgres_workflow_store.py.
use nokinc_factory.Prelude.{
  ◌≡◌, sym, ap, ◌∙◌, ℕ, Bool, true, ◌&&◌, List, [], ◌∷◌, Option, none, some, any, first?, ◌==◌,
  nat_eq, arith, ok, >>=-eq-ok, >>-eq-ok, require,
}
use nokinc_factory.Delivery.Tables.{
  OutboxRow, StoreError, has_key, enqueued, insert_new, read_outbox, confirm, enqueue_outbox,
}

first?-any :
    (p : OutboxRow → Bool) (rows : List OutboxRow) (r : OutboxRow)
    → first? p rows ≡ some r
    → any p rows ≡ true
first?-any p [] r h = cc
first?-any p (x ∷ xs) r h = ground (arith, first?-any p xs r)

module _ (identity : ℕ → ℕ → ℕ → ℕ → ℕ → ℕ) where
  confirm-eq-ok :
      (item topic payload : ℕ) (found : Option OutboxRow) (rows next : List OutboxRow)
      (row : OutboxRow)
      → confirm identity item topic payload found rows ≡ ok (row, next)
      → (found ≡ some row) × (rows ≡ next)
  unfolding confirm read_outbox
  confirm-eq-ok item topic payload none rows next row h = cc
  confirm-eq-ok item topic payload (some r) rows next row h =
      let (x, read, h1) = >>=-eq-ok (read_outbox identity r) _ h in
      let (_, same) = >>-eq-ok _ (ok r) read in
      let (_, h2) = >>-eq-ok _ (ok (x, rows)) h1 in (cc, cc)

  -- An enqueue that returned a row, repeated with the same event, item, topic and payload at
  -- whatever time, returns that row and changes nothing.
  pub enqueue_outbox-twice :
      (items : List (ℕ × ℕ)) (tenant item event topic payload now again : ℕ)
      (rows next : List OutboxRow) (row : OutboxRow)
      → enqueue_outbox identity items tenant item event topic payload now rows ≡ ok (row, next)
      → enqueue_outbox identity items tenant item event topic payload again next ≡ ok (row, next)
  unfolding enqueue_outbox insert_new
  enqueue_outbox-twice items tenant item event topic payload now again rows next row h =
      let made = insert_new (enqueued identity tenant item event topic payload now) rows in
      let (known, h1) =
        >>-eq-ok
          (require (any (λ (i : ℕ × ℕ). i.0 == tenant && i.1 == item) items)
            StoreError.workflow_store_denied)
          _ h in
      let (found, same) =
        confirm-eq-ok item topic payload (first? (has_key tenant event) made) made next row h1 in
      let there = ap (first? (has_key tenant event)) (sym same) ∙ found in
      let old = first?-any (has_key tenant event) next row there in
      let before =
        ap (λ t. confirm identity item topic payload (first? (has_key tenant event) t) t) (sym same)
        ∙ h1 in
      rw (known, old) before
