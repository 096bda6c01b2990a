-- ===== src/Delivery/Numbering.antt =====
-- The rows of an event chain, numbered from one on, and their order by number:
-- adapters/postgres_workflow_store.py.
use nokinc_factory.Prelude.{
  ◌≡◌, refl, ap, subst, ◌∙◌, ℕ, ◌+◌, List, [], ◌∷◌, ◌++◌, length, max, nat_eq, ok, arith,
}
use nokinc_factory.Delivery.Workflow.{
  kind_eq, WorkflowEvent, EventRow, WorkflowDigests, place, by_sequence, last_sequence, read_event,
  event_row, read_from,
}

module _ (d : WorkflowDigests) where
  -- Rows of stored events with consecutive sequence numbers from `n + 1`.
  abbrev pub Numbered : ℕ → List EventRow → Type 0
  Numbered n [] = Unit {0}
  Numbered n (r ∷ rs) = (r ≡ event_row d r.document (n + 1)) × Numbered (n + 1) rs

  abbrev pub documents : List EventRow → List WorkflowEvent
  documents [] = []
  documents (r ∷ rs) = r.document ∷ documents rs

  pub read_event-stored :
      (event : WorkflowEvent) (n : ℕ) → read_event d (event_row d event n) n ≡ ok event
  unfolding read_event
  read_event-stored event n = ground (arith, kind_eq.beq_iff event.kind event.kind)

  pub Numbered-read_from :
      (n : ℕ) (rs : List EventRow) → Numbered n rs → read_from d (n + 1) rs ≡ ok (documents rs)
  unfolding read_from
  Numbered-read_from n [] h = refl
  Numbered-read_from n (r ∷ rs) h =
      let e : read_event d r (n + 1) ≡ ok r.document =
        ap (λ (q : EventRow). read_event d q (n + 1)) h.0 ∙ read_event-stored r.document (n + 1) in
      rw (e, Numbered-read_from (n + 1) rs h.1) refl

  pub Numbered-append :
      (n : ℕ) (rs : List EventRow) (new : WorkflowEvent)
      → Numbered n rs
      → Numbered n (rs ++ event_row d new (n + length rs + 1) ∷ [])
  Numbered-append n [] new h = (ap (event_row d new) (omega arith), tt)
  Numbered-append n (r ∷ rs) new h = (
    h.0,
    subst (λ (k : ℕ). Numbered (n + 1) (rs ++ event_row d new k ∷ [])) (omega arith)
        (Numbered-append (n + 1) rs new h.1),
  )

  -- The highest sequence number is the number of rows.
  pub Numbered-last_sequence :
      (n : ℕ) (rs : List EventRow) → Numbered n rs → max n (last_sequence rs) ≡ n + length rs
  unfolding last_sequence
  Numbered-last_sequence n [] h = omega arith
  Numbered-last_sequence n (r ∷ rs) h =
      let s = ap (λ (q : EventRow). q.sequence) h.0 in
      omega (arith, s, Numbered-last_sequence (n + 1) rs h.1)

  place-first :
      (n : ℕ) (r : EventRow) (rs : List EventRow)
      → r.sequence ≡ n
      → Numbered n rs
      → place r rs ≡ r ∷ rs
  unfolding place
  place-first n r [] e h = refl
  place-first n r (x ∷ xs) e h = let s = ap (λ (q : EventRow). q.sequence) h.0 in ground (arith, s)

  -- Rows that are numbered in their order stand in the order of their numbers.
  pub Numbered-by_sequence : (n : ℕ) (rs : List EventRow) → Numbered n rs → by_sequence rs ≡ rs
  unfolding by_sequence
  Numbered-by_sequence n [] h = refl
  Numbered-by_sequence n (r ∷ rs) h =
      ap (place r) (Numbered-by_sequence (n + 1) rs h.1)
      ∙ place-first (n + 1) r rs (ap (λ (q : EventRow). q.sequence) h.0) h.1
