-- ===== src/Catalog/Faithful.antt =====
-- Every stored revision can be exported, as the session that its digest names.
use session_search.Base.{
  ℕ, suc, ◌≡◌, refl, ap, subst, ◌∙◌, inl, inr, String, some, List, [], ◌∷◌, arith, nat_eq,
  string_eq,
}
use session_search.Base.Result.{Result-cases, ok}
use session_search.Records.{Event}
use session_search.Catalog.{insert_event, insert_events}
use session_search.Catalog.Tables.{Catalog, EvidenceRow, add_evidence}
use session_search.Catalog.Evidence.{
  row_at, IsInjective, Keeps, Keeps-refl, Keeps-trans, Sound, Added, add_evidence-Added,
}

-- The keys are those of rows of the events, all of the session.
abbrev pub Holds : List EvidenceRow → String → List ℕ → List Event → Type 0
Holds rows session [] [] = Unit
Holds rows session [] (e ∷ events) = ⊥
Holds rows session (i ∷ ids) [] = ⊥
Holds rows session (i ∷ ids) (e ∷ events) =
    ((r : EvidenceRow) × (row_at i rows ≡ some r) × (r.event ≡ e) × (r.session_id ≡ session))
    × Holds rows session ids events

pub Holds-Keeps :
    {a b : List EvidenceRow} (session : String) (ids : List ℕ) (events : List Event)
    → Keeps a b
    → Holds a session ids events
    → Holds b session ids events
Holds-Keeps session [] [] k h = tt
Holds-Keeps session [] (e ∷ events) k h = absurd h
Holds-Keeps session (i ∷ ids) [] k h = absurd h
Holds-Keeps session (i ∷ ids) (e ∷ events) k h =
    let (r, there, same, owner) = h.0 in
    ((r, k.at_row i r there, same, owner), Holds-Keeps session ids events k h.1)

module _ (event_digest : String → Event → String) where
  insert_event_ok :
      (previous : List ℕ) (session : String) (index : ℕ) (event : Event) (c c' : Catalog) (row : ℕ)
      → insert_event event_digest previous session index event c ≡ ok (row, c')
      → (add_evidence session (event_digest session event) event c.evidence ≡ (row, c'.evidence))
        × (c'.receipts ≡ c.receipts)
  unfolding insert_event
  insert_event_ok previous session index event c c' row h = (ground arith, ground arith)

  pub nothing :
      (previous : List ℕ) (session : String) (index : ℕ) (c c' : Catalog) (ids : List ℕ)
      → insert_events event_digest previous session index [] c ≡ ok (ids, c')
      → (ids ≡ []) × (c' ≡ c)
  unfolding insert_events
  nothing previous session index c c' ids h = (ground arith, ground arith)

  pub insert_events_step :
      (previous : List ℕ) (session : String) (index : ℕ) (event : Event) (events : List Event)
      (c last : Catalog) (ids : List ℕ)
      → insert_events event_digest previous session index (event ∷ events) c ≡ ok (ids, last)
      → (row : ℕ) × (c' : Catalog) × (rows : List ℕ) × (insert_event event_digest previous session
            index event c
          ≡ ok (row, c'))
        × (insert_events event_digest previous session (suc index) events c' ≡ ok (rows, last))
        × (ids ≡ row ∷ rows)
  unfolding insert_events
  insert_events_step previous session index event events c last ids h =
      elim (Result-cases (insert_event event_digest previous session index event c)) [
        | inr (e, failed) ↦ absurd (ground arith)
        | inl ((row, c'), first) ↦
            elim (Result-cases
              (insert_events event_digest previous session (suc index) events c')) [
                | inr (e, failed) ↦ absurd (ground arith)
                | inl ((rows, end), rest) ↦ (
                  row,
                  c',
                  rows,
                  first,
                  (let same : end ≡ last = ground arith in rest ∙ ap (λ x. ok (rows, x)) same),
                  ground arith,
                )
              ]
      ]

  -- What the loop of `ingest` leaves.
  abbrev pub Inserted : String → List ℕ → List Event → Catalog → Catalog → Type 0
  Inserted session ids events c c' =
      Sound event_digest c'.evidence
      × Keeps c.evidence c'.evidence
      × Holds c'.evidence session ids events
      × (c'.receipts ≡ c.receipts)

  pub insert_events-Inserted :
      (previous : List ℕ) (session : String) (index : ℕ) (events : List Event) (c c' : Catalog)
      (ids : List ℕ)
      → IsInjective event_digest
      → Sound event_digest c.evidence
      → insert_events event_digest previous session index events c ≡ ok (ids, c')
      → Inserted session ids events c c'
  insert_events-Inserted previous session index [] c c' ids injective s h =
      let done : (ids ≡ []) × (c' ≡ c) = nothing previous session index c c' ids h in
      rw (done.1, done.0) (s, Keeps-refl c.evidence, tt, refl)
  insert_events-Inserted previous session index (event ∷ events) c c' ids injective s h =
      let (row, mid, rows, first, rest, is) =
        insert_events_step previous session index event events c c' ids h in
      let added : Added event_digest session event c.evidence (row, mid.evidence) =
        subst (Added event_digest session event c.evidence)
          (insert_event_ok previous session index event c mid row first).0
          (add_evidence-Added event_digest session event c.evidence injective s) in
      let ih : Inserted session rows events mid c' =
        insert_events-Inserted previous session (suc index) events mid c' rows injective added.0
          rest in
      let (_, keeps, e, there, same, owner) = added in
      rw is (
        ih.0,
        Keeps-trans keeps ih.1,
        ((e, ih.1.at_row row e there, same, owner), ih.2),
        ih.3 ∙ (insert_event_ok previous session index event c mid row first).1,
      )
