-- ===== src/Catalog/Evidence.antt =====
-- The table `evidence`: keys are fresh, a row is found by its hash, and no row ever changes.
use session_search.Base.{
  ℕ, ◌≤◌, ◌≡◌, refl, sym, subst, ◌∙◌, inl, inr, String, Option, none, some, List, [], ◌∷◌, ◌++◌,
  arith, if◌then◌else◌, ◌==◌, nat_eq, string_eq, Bool-cases, Option-cases, find,
}
use session_search.Records.{Event}
use session_search.Catalog.Tables.{EvidenceRow, next_row, same_hash, add_evidence}

unfoldable pub row_at : ℕ → List EvidenceRow → Option EvidenceRow
row_at i [] = none
row_at i (r ∷ rows) = if r.row_id == i then some r else row_at i rows

-- No two events of any sessions have the same digest.
pub record IsInjective (event_digest : String → Event → String) : Type 0 where
  pub same : (s t : String) (a b : Event) → event_digest s a ≡ event_digest t b → (s ≡ t) × (a ≡ b)

row_at-next_row : (i : ℕ) (rows : List EvidenceRow) → next_row rows ≤ i → row_at i rows ≡ none
unfolding row_at next_row
row_at-next_row i [] h = refl
row_at-next_row i (r ∷ rows) h = ground (arith, row_at-next_row i rows (omega arith))

pub row_at-append :
    (i : ℕ) (rows : List EvidenceRow) (r : EvidenceRow)
    → row_at i (rows ++ r ∷ [])
      ≡ elim (row_at i rows) [ some e ↦ some e | none ↦ if r.row_id == i then some r else none ]
unfolding row_at
row_at-append i [] r = ground arith
row_at-append i (x ∷ rows) r = ground (arith, row_at-append i rows r)

-- Every row of `a` is in `b`, unchanged.
pub record Keeps (a b : List EvidenceRow) : Type 0 where
  pub at_row : (i : ℕ) (e : EvidenceRow) → row_at i a ≡ some e → row_at i b ≡ some e

pub Keeps-refl : (a : List EvidenceRow) → Keeps a a
Keeps-refl a = record { at_row = λ i e h. h }

pub Keeps-trans : {a b c : List EvidenceRow} → Keeps a b → Keeps b c → Keeps a c
Keeps-trans x y = record { at_row = λ i e h. y.at_row i e (x.at_row i e h) }

module _ (event_digest : String → Event → String) where
  -- Keys do not repeat, and each hash is that of the row's own event.
  abbrev pub Sound : List EvidenceRow → Type 0
  Sound [] = Unit
  Sound (r ∷ rows) =
      (row_at r.row_id rows ≡ none)
      × (r.content_hash ≡ event_digest r.session_id r.event)
      × Sound rows

  Sound-append :
      (rows : List EvidenceRow) (r : EvidenceRow)
      → Sound rows
      → row_at r.row_id rows ≡ none
      → r.content_hash ≡ event_digest r.session_id r.event
      → Sound (rows ++ r ∷ [])
  unfolding row_at
  Sound-append [] r s fresh hash = (refl, hash, tt)
  Sound-append (x ∷ rows) r s fresh hash = (
    ground (arith, row_at-append x.row_id rows r),
    s.1,
    Sound-append rows r s.2 (ground arith) hash,
  )

  find-Sound :
      (hash : String) (rows : List EvidenceRow) (e : EvidenceRow)
      → Sound rows
      → find (same_hash hash) rows ≡ some e
      → (row_at e.row_id rows ≡ some e)
        × (e.content_hash ≡ hash)
        × (e.content_hash ≡ event_digest e.session_id e.event)
  unfolding find row_at
  find-Sound hash [] e s h = absurd (ground arith)
  find-Sound hash (x ∷ rows) e s h = elim (Bool-cases (x.content_hash == hash)) [
    | inl same ↦
        (let it : x ≡ e = ground arith in
          subst
            (λ y.
              (row_at y.row_id (x ∷ rows) ≡ some y)
              × (y.content_hash ≡ hash)
              × (y.content_hash ≡ event_digest y.session_id y.event))
            it (ground arith, ground arith, s.1))
    | inr differ ↦
        let later : find (same_hash hash) rows ≡ some e = ground arith in
        let ih : (row_at e.row_id rows ≡ some e)
            × (e.content_hash ≡ hash)
            × (e.content_hash ≡ event_digest e.session_id e.event) =
          find-Sound hash rows e s.2 later in
        (ground arith, ih.1, ih.2)
  ]

  -- The rows are sound and keep the old ones, and the key is that of a row of the event.
  abbrev pub Added : String → Event → List EvidenceRow → ℕ × List EvidenceRow → Type 0
  Added session event rows (row, rows') =
      Sound rows'
      × Keeps rows rows'
      × (e : EvidenceRow) × (row_at row rows' ≡ some e)
      × (e.event ≡ event)
      × (e.session_id ≡ session)

  -- What `INSERT OR IGNORE` and the query for the row come to.
  pub add_evidence-Added :
      (session : String) (event : Event) (rows : List EvidenceRow)
      → IsInjective event_digest
      → Sound rows
      → Added session event rows (add_evidence session (event_digest session event) event rows)
  unfolding add_evidence
  add_evidence-Added session event rows injective s =
      let hash : String = event_digest session event in
      elim (Option-cases (find (same_hash hash) rows)) [
        | inr (e, found) ↦
            let it : (row_at e.row_id rows ≡ some e)
                × (e.content_hash ≡ hash)
                × (e.content_hash ≡ event_digest e.session_id e.event) =
              find-Sound hash rows e s found in
            let same : (e.session_id ≡ session) × (e.event ≡ event) =
              injective.same e.session_id session e.event event (sym it.2 ∙ it.1) in
            let out : add_evidence session hash event rows ≡ (e.row_id, rows) =
              rw (add_evidence, found) refl in
            subst (Added session event rows) (sym out) (s, Keeps-refl rows, e, it.0, same.1, same.0)
        | inl missing ↦
            let fresh : row_at (next_row rows) rows ≡ none =
              row_at-next_row (next_row rows) rows (omega arith) in
            let r : EvidenceRow = record {
              row_id = next_row rows;
              session_id = session;
              content_hash = hash;
              event = event;
            } in
            let out : add_evidence session hash event rows ≡ (next_row rows, rows ++ r ∷ []) =
              rw (add_evidence, missing) refl in
            subst (Added session event rows) (sym out) (
              Sound-append rows r s fresh refl,
              record { at_row = λ i e h. ground (arith, row_at-append i rows r, h) },
              r,
              ground (arith, row_at-append (next_row rows) rows r, fresh),
              refl,
              refl,
            )
      ]
