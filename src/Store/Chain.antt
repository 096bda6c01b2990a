-- ===== src/Store/Chain.antt =====
-- The chain of events that `history` of adapters/postgres_review_store.py reads, and the row of the
-- current session beside it.
use nokinc_factory.Prelude.{
  ◌≡◌, refl, sym, ap, subst, ◌∙◌, ℕ, ◌+◌, Bool, true, false, ◌&&◌, List, [], ◌∷◌, ◌++◌, Option,
  none, some, first?, last?, last?-append, length, length-append, Bool-cases, inl, inr, ◌==◌,
  nat_eq, option_eq, arith, ok, >>=-eq-ok, >>-eq-ok, require-eq-ok, ok_injective,
}
use nokinc_factory.Review.Artifact.{Identifier, Digest, Moment, ReviewScope, scope_eq}
use nokinc_factory.Review.Session.{ReviewSession}
use nokinc_factory.Review.Digests.{Digests}
use nokinc_factory.Review.Policy.{validate_session}
use nokinc_factory.Review.Persistence.{TransitionKind, transition_eq, validate_extension}
use nokinc_factory.Review.Ledger.{validate_session-IsReplayed}
use nokinc_factory.Store.Tables.{
  BudgetRow, SessionRow, EventRow, ReviewTables, ReviewStoreGrant, is_unit, Encodings,
}
use nokinc_factory.Store.Swap.{row_of, event_of, digest_of, read_history, compare_and_reserve}
use nokinc_factory.Store.Rows.{
  raised, deny_unless, set_session, put_session, next_sequence, unit_events,
}
use nokinc_factory.Store.Commit.{raised-eq-ok, Stored, IsCommit, compare_and_reserve-IsAnswer}
use nokinc_factory.Store.Writers.{first?-put_session}

-- The row of a unit is the last session of its chain.
abbrev pub Tip : Digests → Option SessionRow → List ReviewSession → Type 0
Tip d none chain = chain ≡ []
Tip d (some row) chain =
    (last? chain ≡ some row.document)
    × (row.sequence ≡ length chain)
    × (row.digest ≡ d.session row.document)

-- The session before what is read next.
abbrev latest : Option ReviewSession → List ReviewSession → Option ReviewSession
latest previous [] = previous
latest previous (s ∷ ss) = latest (some s) ss

latest-last? :
    (chain : List ReviewSession) (previous : Option ReviewSession) (s : ReviewSession)
    → last? chain ≡ some s
    → latest previous chain ≡ some s
latest-last? [] previous s h = cc
latest-last? (x ∷ []) previous s h = h
latest-last? (x ∷ y ∷ xs) previous s h = latest-last? (y ∷ xs) (some x) s (ground (arith, h))

unit_events-own :
    (e : EventRow) (es : List EventRow)
    → unit_events e.scope (es ++ e ∷ []) ≡ unit_events e.scope es ++ e ∷ []
unit_events-own e [] = ground (arith, scope_eq.beq_iff e.scope e.scope)
unit_events-own e (x ∷ es) = ground (arith, unit_events-own e es)

unit_events-other :
    (scope : ReviewScope) (e : EventRow) (es : List EventRow)
    → (e.scope == scope) ≡ false
    → unit_events scope (es ++ e ∷ []) ≡ unit_events scope es
unit_events-other scope e [] h = ground arith
unit_events-other scope e (x ∷ es) h = ground (arith, unit_events-other scope e es)

pub first?-other :
    (scope : ReviewScope) (new : SessionRow) (row : Option SessionRow) (rows : List SessionRow)
    → (new.scope == scope) ≡ false
    → first? (is_unit scope) (put_session row new rows) ≡ first? (is_unit scope) rows
unfolding set_session
first?-other scope new none [] h = ground arith
first?-other scope new none (r ∷ rs) h = ground (arith, first?-other scope new none rs)
first?-other scope new (some old) [] h = refl
first?-other scope new (some old) (r ∷ rs) h = ground (
  arith,
  first?-other scope new (some old) rs,
  scope_eq.beq_iff r.scope new.scope,
  scope_eq.beq_iff r.scope scope,
  scope_eq.beq_iff new.scope scope,
)

module _ (d : Digests) (encodings : Encodings) where
  -- An event that continues a chain.
  abbrev pub Continues : ℕ → Option ReviewSession → EventRow → Type 0
  Continues done previous e =
      (e.sequence ≡ done + 1)
      × (e.after_digest ≡ d.session e.document)
      × (e.before_digest ≡ digest_of d encodings previous)
      × (validate_session d e.document ≡ ok e.document)
      × (validate_extension d previous e.document ≡ ok e.kind)

  read_history-one :
      (done : ℕ) (previous : Option ReviewSession) (e : EventRow) (es : List EventRow)
      (items : List ReviewSession)
      → Continues done previous e
      → read_history d encodings (done + 1) (some e.document) es ≡ ok items
      → read_history d encodings done previous (e ∷ es) ≡ ok (e.document ∷ items)
  unfolding read_history
  read_history-one done previous e es items (q, a, b, v, k) h =
      let same = (option_eq.beq_iff e.before_digest (digest_of d encodings previous)).1 b in
      let kind = (transition_eq.beq_iff e.kind e.kind).1 refl in
      rw (v, k, h) (ground (arith, q, a, same, kind))

  -- What reading one event more says of it.
  pub read_history-Continues :
      (done : ℕ) (previous : Option ReviewSession) (e : EventRow) (es : List EventRow)
      (chain : List ReviewSession)
      → read_history d encodings done previous (e ∷ es) ≡ ok chain
      → Continues done previous e
        × (items : List ReviewSession) × (read_history d encodings (done + 1) (some e.document) es
            ≡ ok items)
        × (e.document ∷ items ≡ chain)
  unfolding read_history
  read_history-Continues done previous e es chain h =
      let (item, v, h1) = >>=-eq-ok (raised (validate_session d e.document)) _ h in
      let is = (validate_session-IsReplayed d e.document (raised-eq-ok _ v)).0 in
      let (links, h2) =
        >>-eq-ok
          (deny_unless (
            e.sequence == done + 1
            && e.after_digest == d.session item
            && e.before_digest == digest_of d encodings previous))
          _ h1 in
      let (kind, k, h3) = >>=-eq-ok (raised (validate_extension d previous item)) _ h2 in
      let (named, h4) = >>-eq-ok (deny_unless (e.kind == kind)) _ h3 in
      let (items, r, h5) =
        >>=-eq-ok (read_history d encodings (done + 1) (some e.document) es) _ h4 in
      let all_three = require-eq-ok _ _ links in
      let same = (transition_eq.beq_iff e.kind kind).0 (require-eq-ok _ _ named) in
      let digests : e.after_digest ≡ d.session item = ground arith in
      let before : (e.before_digest == digest_of d encodings previous) ≡ true = ground arith in
      (
        (
          ground arith,
          digests ∙ ap d.session is,
          (option_eq.beq_iff e.before_digest (digest_of d encodings previous)).0 before,
          raised-eq-ok _ v ∙ ap ok is,
          ap (validate_extension d previous) (sym is) ∙ raised-eq-ok _ k ∙ ap ok (sym same),
        ),
        items,
        r,
        ap (λ (s : ReviewSession). s ∷ items) (sym is) ∙ ok_injective h5,
      )

  -- A chain with one more event is read to its end.
  read_history-append :
      (done : ℕ) (previous : Option ReviewSession) (e : EventRow) (es : List EventRow)
      (chain : List ReviewSession)
      → read_history d encodings done previous es ≡ ok chain
      → Continues (done + length chain) (latest previous chain) e
      → read_history d encodings done previous (es ++ e ∷ []) ≡ ok (chain ++ e.document ∷ [])
  unfolding read_history
  read_history-append done previous e [] chain h c =
      let empty = ok_injective h in
      subst
        (λ (c : List ReviewSession).
          Continues (done + length c) (latest previous c) e
          → read_history d encodings done previous (e ∷ []) ≡ ok (c ++ e.document ∷ []))
        empty
        (λ (c : Continues (done + 0) previous e).
          read_history-one done previous e [] []
            (subst (λ (n : ℕ). Continues n previous e) (omega arith) c) refl)
        c
  read_history-append done previous e (x ∷ es) chain h c =
      let (k, items, r, is) = read_history-Continues done previous x es chain h in
      let c1 =
        subst (λ (c : List ReviewSession). Continues (done + length c) (latest previous c) e)
          (sym is) c in
      let c2 = subst (λ (n : ℕ). Continues n (latest (some x.document) items) e) (omega arith) c1 in
      read_history-one done previous x (es ++ e ∷ []) (items ++ e.document ∷ []) k
        (read_history-append (done + 1) (some x.document) e es items r c2)
      ∙ ap (λ (c : List ReviewSession). ok (c ++ e.document ∷ [])) is

  -- The events of every unit are a chain that can be read, and its row is the tip of it.
  abbrev pub Chained : ReviewTables → ReviewScope → Type 0
  Chained tables scope =
      (chain : List ReviewSession) × (read_history d encodings 0 none
          (unit_events scope tables.events)
        ≡ ok chain)
      × Tip d (first? (is_unit scope) tables.sessions) chain

  -- What an event must be to continue the chain of a row.
  event-Continues :
      (grant : ReviewStoreGrant) (scope : ReviewScope) (row : Option SessionRow)
      (current : Option ReviewSession) (updated : ReviewSession) (kind : TransitionKind)
      (chain : List ReviewSession)
      → Tip d row chain
      → Stored row current
      → validate_session d updated ≡ ok updated
      → validate_extension d current updated ≡ ok kind
      → Continues
          (0 + length chain)
          (latest none chain)
          (event_of d encodings grant scope current updated kind (next_sequence row))
  event-Continues grant scope none none updated kind chain empty s v k =
      subst
        (λ (c : List ReviewSession).
          Continues (0 + length c) (latest none c)
            (event_of d encodings grant scope none updated kind 1))
        (sym empty) (refl, refl, refl, v, k)
  event-Continues grant scope none (some c) updated kind chain t s v k = absurd s
  event-Continues grant scope (some r) none updated kind chain t s v k = absurd s
  event-Continues grant scope (some r) (some c) updated kind chain (l, n, g) s v k =
      let is = latest-last? chain none r.document l ∙ ap some s in
      (
        ground (arith, n),
        refl,
        ap (digest_of d encodings) (sym is),
        v,
        ap (λ (p : Option ReviewSession). validate_extension d p updated) is ∙ k,
      )

  next_sequence-length :
      (row : Option SessionRow) (chain : List ReviewSession)
      → Tip d row chain
      → next_sequence row ≡ length chain + 1
  next_sequence-length none chain empty = ap (λ (c : List ReviewSession). length c + 1) (sym empty)
  next_sequence-length (some r) chain t = ap (λ (n : ℕ). n + 1) t.1

  own-Chained :
      (grant : ReviewStoreGrant) (scope : ReviewScope) (updated : ReviewSession) (now : Moment)
      (parent : BudgetRow) (current : Option ReviewSession) (before after : ReviewTables)
      → validate_session d updated ≡ ok updated
      → Stored (first? (is_unit scope) before.sessions) current
      → IsCommit d encodings grant scope updated now parent
          (first? (is_unit scope) before.sessions)
          current
          before
          after
      → Chained before scope
      → Chained after scope
  own-Chained grant scope updated now parent current before after v s c (chain, r, t) =
      let row = first? (is_unit scope) before.sessions in
      let new = row_of d encodings scope updated (next_sequence row) in
      let event = event_of d encodings grant scope current updated c.kind (next_sequence row) in
      let next = event-Continues grant scope row current updated c.kind chain t s v c.extends in
      let read = read_history-append 0 none event (unit_events scope before.events) chain r next in
      (
        chain ++ updated ∷ [],
        rw c.events (rw (unit_events-own event before.events) read),
        rw c.sessions (
            rw (first?-put_session new row before.sessions refl) (
              last?-append chain updated,
              next_sequence-length row chain t ∙ sym (length-append chain (updated ∷ [])),
              refl,
            )),
      )

  commit-Chained :
      (grant : ReviewStoreGrant) (scope unit : ReviewScope) (updated : ReviewSession) (now : Moment)
      (parent : BudgetRow) (current : Option ReviewSession) (before after : ReviewTables)
      → validate_session d updated ≡ ok updated
      → Stored (first? (is_unit scope) before.sessions) current
      → IsCommit d encodings grant scope updated now parent
          (first? (is_unit scope) before.sessions)
          current
          before
          after
      → Chained before unit
      → Chained after unit
  commit-Chained grant scope unit updated now parent current before after v s c h =
      let row = first? (is_unit scope) before.sessions in
      let new = row_of d encodings scope updated (next_sequence row) in
      let event = event_of d encodings grant scope current updated c.kind (next_sequence row) in
      elim (Bool-cases (scope == unit)) [
        | inl own ↦
            let is = (scope_eq.beq_iff scope unit).0 own in
            subst (Chained after) is (
              own-Chained grant scope updated now parent current before after v s c
                (subst (Chained before) (sym is) h))
        | inr other ↦ (
          h.0,
          rw c.events (rw (unit_events-other unit event before.events other) h.1),
          rw c.sessions (rw (first?-other unit new row before.sessions other) h.2),
        )
      ]

  pub compare_and_reserve-Chained :
      (grant : ReviewStoreGrant) (scope unit : ReviewScope) (expected : Option Digest)
      (given : ReviewSession) (budget : Identifier) (now : Moment) (before after : ReviewTables)
      (answer : Bool)
      → Chained before unit
      → compare_and_reserve d encodings grant scope expected given budget now before
        ≡ ok (answer, after)
      → Chained after unit
  compare_and_reserve-Chained grant scope unit expected given budget now before after answer h e =
      let a =
        compare_and_reserve-IsAnswer d encodings grant scope expected given budget now before after
          answer e in
      elim a.outcome [
        | inl (_, same) ↦ subst (λ (t : ReviewTables). Chained t unit) (sym same) h
        | inr (_, _, c) ↦
            commit-Chained grant scope unit given now a.parent a.current before after a.valid
              a.stored c h
      ]
