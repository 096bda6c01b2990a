-- ===== src/Store/Tips.antt =====
-- The last event of a unit's chain, which `_check_tip` of adapters/postgres_review_store.py compares
-- with the unit's row.
use nokinc_factory.Prelude.{
  ◌≡◌, refl, sym, ap, subst, ◌∙◌, ℕ, ◌+◌, ◌≤◌, false, List, [], ◌∷◌, Option, none, some, last?,
  length, ltb, nat_eq, option_eq, arith, ok, ok_injective,
}
use nokinc_factory.Review.Artifact.{scope_eq}
use nokinc_factory.Review.Session.{ReviewSession, session_eq}
use nokinc_factory.Review.Digests.{Digests}
use nokinc_factory.Store.Tables.{SessionRow, EventRow, Encodings}
use nokinc_factory.Store.Swap.{read_history}
use nokinc_factory.Store.Rows.{highest, check_tip}
use nokinc_factory.Store.Chain.{Tip, read_history-Continues}

-- What the event of the highest sequence is to the chain that was read after `done` sessions.
abbrev Highest : Digests → ℕ → Option EventRow → List ReviewSession → Type 0
Highest d done none chain = chain ≡ []
Highest d done (some e) chain =
    (last? chain ≡ some e.document)
    × (e.sequence ≡ done + length chain)
    × (e.after_digest ≡ d.session e.document)
    × (1 ≤ length chain)

Highest-step :
    (d : Digests) (done : ℕ) (e : EventRow) (es : List EventRow) (tip : Option EventRow)
    (items : List ReviewSession)
    → highest es ≡ tip
    → e.sequence ≡ done + 1
    → e.after_digest ≡ d.session e.document
    → Highest d (done + 1) tip items
    → Highest d done (highest (e ∷ es)) (e.document ∷ items)
unfolding highest
Highest-step d done e es none items t q a empty =
    rw (t, empty) (refl, (omega (arith, q)), a, omega arith)
Highest-step d done e es (some f) items t q a (l, n, g, m) =
    let first : ltb f.sequence e.sequence ≡ false = ground arith in
    rw (t, first) (rw l refl, omega arith, g, omega arith)

module _ (d : Digests) (encodings : Encodings) where
  read_history-Highest :
      (done : ℕ) (previous : Option ReviewSession) (es : List EventRow) (chain : List ReviewSession)
      → read_history d encodings done previous es ≡ ok chain
      → Highest d done (highest es) chain
  unfolding read_history highest
  read_history-Highest done previous [] chain h = sym (ok_injective h)
  read_history-Highest done previous (e ∷ es) chain h =
      let (k, items, r, is) = read_history-Continues d encodings done previous e es chain h in
      let rest = read_history-Highest (done + 1) (some e.document) es items r in
      subst (Highest d done (highest (e ∷ es))) is
        (Highest-step d done e es (highest es) items refl k.0 k.1 rest)

  Tip-check_tip :
      (tip : Option EventRow) (row : Option SessionRow) (chain : List ReviewSession)
      → Highest d 0 tip chain
      → Tip d row chain
      → check_tip tip row ≡ ok tt
  unfolding check_tip
  Tip-check_tip none none chain h t = refl
  Tip-check_tip none (some r) chain h t = let (l, n, g) = subst (Tip d (some r)) h t in cc
  Tip-check_tip (some e) none chain h t = let (l, n, g, m) = subst (Highest d 0 (some e)) t h in cc
  Tip-check_tip (some e) (some r) chain (l, n, g, m) (l1, n1, g1) =
      let same : r.document ≡ e.document = cc in
      let there = (session_eq.beq_iff r.document e.document).1 same in
      let digests = g1 ∙ ap d.session same ∙ sym g in ground (arith, n, n1, digests, there)

  -- A row that is the tip of its chain passes the check.
  pub read_history-check_tip :
      (es : List EventRow) (row : Option SessionRow) (chain : List ReviewSession)
      → read_history d encodings 0 none es ≡ ok chain
      → Tip d row chain
      → check_tip (highest es) row ≡ ok tt
  read_history-check_tip es row chain h t =
      Tip-check_tip (highest es) row chain (read_history-Highest 0 none es chain h) t
