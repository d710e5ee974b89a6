-- ===== src/Catalog/Stored.antt =====
-- The revisions that are stored after `ingest`.
use session_search.Base.{
  ℕ, ◌≡◌, ◌⊎◌, refl, ◌∙◌, inl, inr, String, Bool, not, ◌&&◌, Option, none, some, List, [], ◌∷◌,
  ◌++◌, arith, if◌then◌else◌, ◌==◌, string_eq, Option-cases, find, select, All, All-mono,
  All-append, upsert,
}
use session_search.Base.Result.{Result-cases, ok}
use session_search.Records.{Event, SessionRevision}
use session_search.Records.Accepted.{Distinct, event_ids}
use session_search.Catalog.{insert_events, new_revision, transaction, ingest}
use session_search.Catalog.Tables.{
  Catalog, Receipt, EvidenceRow, RevisionRow, Raw, Ingested, row_of, revision_row, active_rows,
  acknowledge, in_session, same_request, stays_indexed,
}
use session_search.Catalog.Evidence.{IsInjective, Keeps, Keeps-refl, Sound}
use session_search.Catalog.Faithful.{Holds, Holds-Keeps, Inserted, insert_events-Inserted}

abbrev pub Receipted : List RevisionRow → Receipt → Type 0
Receipted revisions r =
    (x : RevisionRow) × (revision_row r.session_id r.revision revisions ≡ some x)

revision_row-append :
    (session revision : String) (rows : List RevisionRow) (r : RevisionRow)
    → revision_row session revision (rows ++ r ∷ []) ≡ elim (revision_row session revision rows) [
      | some x ↦ some x
      | none ↦ if r.session_id == session && r.revision == revision then some r else none
    ]
unfolding revision_row find
revision_row-append session revision [] r = ground arith
revision_row-append session revision (x ∷ rows) r =
    ground (arith, revision_row-append session revision rows r)

pub revision_row_new :
    (session revision : String) (rows : List RevisionRow) (r : RevisionRow)
    → r.session_id ≡ session
    → r.revision ≡ revision
    → (x : RevisionRow) × (revision_row session revision (rows ++ r ∷ []) ≡ some x)
revision_row_new session revision rows r owner named =
    elim (Option-cases (revision_row session revision rows)) [
      | inr (x, found) ↦ (x, rw (revision_row-append, found) refl)
      | inl new ↦
          (r, ground (arith, revision_row-append session revision rows r, new, owner, named))
    ]

Receipted-append :
    (rows : List RevisionRow) (x : RevisionRow) (r : Receipt)
    → Receipted rows r
    → Receipted (rows ++ x ∷ []) r
Receipted-append rows x r (y, found) = (y, rw (revision_row-append, found) refl)

module _ (event_digest : String → Event → String) (session_digest : SessionRevision → String) where
  -- A revision row is that of a session with its digest, and its event map names the rows of the
  -- session's events.
  abbrev pub IsStored : List EvidenceRow → RevisionRow → Type 0
  IsStored rows r =
      (s : SessionRevision) × (session_digest s ≡ r.revision)
      × (row_of r.revision s r.event_map ≡ r)
      × Holds rows s.session_id r.event_map s.events
      × Distinct (event_ids s)

  -- The evidence is sound, every revision is that of a session, and every receipt is for a revision.
  abbrev pub IsWhole : Catalog → Type 0
  IsWhole c =
      Sound event_digest c.evidence
      × All (IsStored c.evidence) c.revisions
      × All (Receipted c.revisions) c.receipts

  IsStored-Keeps :
      {a b : List EvidenceRow} → Keeps a b → (r : RevisionRow) → IsStored a r → IsStored b r
  IsStored-Keeps k r (s, named, row, events, distinct) =
      (s, named, row, Holds-Keeps s.session_id r.event_map s.events k events, distinct)

  -- What a new revision leaves, after its events have been inserted.
  pub new_revision_ok :
      (s : SessionRevision) (c c' : Catalog)
      → new_revision event_digest (session_digest s) s c ≡ ok c'
      → (ids : List ℕ) × (mid : Catalog) × (insert_events event_digest
            (active_rows s.session_id c.active)
            s.session_id
            0
            s.events
            (record c { active = select (λ a. not (in_session s.session_id a)) c.active })
          ≡ ok (ids, mid))
        × (c'.evidence ≡ mid.evidence)
        × (c'.revisions ≡ c.revisions ++ row_of (session_digest s) s ids ∷ [])
        × (c'.heads ≡ upsert s.session_id (session_digest s) c.heads)
        × (c'.active ≡ mid.active)
        × (c'.evidence_fts
            ≡ select (stays_indexed (active_rows s.session_id c.active) ids) mid.evidence_fts)
        × (c'.receipts ≡ mid.receipts)
  unfolding new_revision
  new_revision_ok s c c' h =
      elim (Result-cases (
        insert_events event_digest (active_rows s.session_id c.active) s.session_id 0 s.events
          (record c { active = select (λ a. not (in_session s.session_id a)) c.active }))) [
            | inr (e, failed) ↦ absurd (ground arith)
            | inl ((ids, mid), inserted) ↦ (
              ids,
              mid,
              inserted,
              ground arith,
              ground arith,
              ground arith,
              ground arith,
              ground arith,
              ground arith,
            )
          ]

  -- What `ingest` has come to, past its checks.
  pub ingest_cases :
      (durable : String → ℕ → Bool) (s : SessionRevision) (producer request_id : String)
      (checkpoint : Option (String × String)) (raw : Option Raw) (c c' : Catalog)
      (answer : Ingested)
      → ingest event_digest session_digest durable s producer request_id checkpoint raw c
        ≡ ok (answer, c')
      → ((c' ≡ c)
          × (prior : Receipt) × (find (same_request producer request_id) c.receipts ≡ some prior)
          × (prior.session_id ≡ s.session_id)
          × (prior.revision ≡ session_digest s))
        ⊎ (((r : RevisionRow) × (revision_row s.session_id (session_digest s) c.revisions ≡ some r)
              × (c'
                  ≡ acknowledge s.session_id
                      (session_digest s)
                      producer
                      request_id
                      checkpoint
                      raw
                      c))
            ⊎ ((mid : Catalog) × (new_revision event_digest (session_digest s) s c ≡ ok mid)
                × (c'
                    ≡ acknowledge s.session_id
                        (session_digest s)
                        producer
                        request_id
                        checkpoint
                        raw
                        mid)))
  unfolding ingest transaction
  ingest_cases durable s producer request_id checkpoint raw c c' answer h =
      elim (Option-cases (find (same_request producer request_id) c.receipts)) [
        | inr (prior, found) ↦ inl (ground arith, prior, found, ground arith, ground arith)
        | inl fresh ↦
            elim (Option-cases (revision_row s.session_id (session_digest s) c.revisions)) [
              | inr (r, there) ↦ inr (inl (r, there, ground arith))
              | inl new ↦ elim (Result-cases (new_revision event_digest (session_digest s) s c)) [
                | inr (e, failed) ↦ absurd (ground arith)
                | inl (mid, done) ↦ inr (inr (mid, done, ground arith))
              ]
            ]
      ]

  -- A revision that is not there yet keeps what is stored and adds one row, its own.
  pub new_revision-IsWhole :
      (s : SessionRevision) (c c' : Catalog)
      → IsInjective event_digest
      → Distinct (event_ids s)
      → IsWhole c
      → new_revision event_digest (session_digest s) s c ≡ ok c'
      → Sound event_digest c'.evidence
        × All (IsStored c'.evidence) c'.revisions
        × Keeps c.evidence c'.evidence
        × (c'.receipts ≡ c.receipts)
        × (r : RevisionRow) × (c'.revisions ≡ c.revisions ++ r ∷ [])
        × (r.session_id ≡ s.session_id)
        × (r.revision ≡ session_digest s)
  unfolding row_of
  new_revision-IsWhole s c c' injective distinct whole h =
      let (ids, mid, inserted, evidence, revisions, _, _, _, receipts) = new_revision_ok s c c' h in
      let cleared : Catalog = record c {
        active = select (λ a. not (in_session s.session_id a)) c.active;
      } in
      let kept : Inserted event_digest s.session_id ids s.events cleared mid =
        insert_events-Inserted event_digest (active_rows s.session_id c.active) s.session_id 0
          s.events cleared mid ids injective whole.0 inserted in
      let r : RevisionRow = row_of (session_digest s) s ids in
      let new_row : IsStored mid.evidence r = (s, refl, refl, kept.2, distinct) in
      let rows : All (IsStored mid.evidence) (c.revisions ++ r ∷ []) =
        All-append (IsStored mid.evidence) c.revisions (r ∷ [])
          (All-mono {P = IsStored c.evidence} {Q = IsStored mid.evidence} (IsStored-Keeps kept.1)
            c.revisions whole.1)
          (new_row, tt) in
      rw evidence (kept.0, rw revisions rows, kept.1, receipts ∙ kept.3, r, revisions, refl, refl)

  -- When no two events share a digest: an ingest that succeeds, of a session whose events have
  -- different identities, keeps the evidence sound, every event map that of a session with the
  -- digest of its revision, and every receipt that of a stored revision; it changes no row of
  -- evidence, and leaves the revisions as they are or adds one behind them.
  pub ingest-IsWhole :
      (durable : String → ℕ → Bool) (s : SessionRevision) (producer request_id : String)
      (checkpoint : Option (String × String)) (raw : Option Raw) (c c' : Catalog)
      (answer : Ingested)
      → IsInjective event_digest
      → Distinct (event_ids s)
      → IsWhole c
      → ingest event_digest session_digest durable s producer request_id checkpoint raw c
        ≡ ok (answer, c')
      → IsWhole c'
        × Keeps c.evidence c'.evidence
        × ((c'.revisions ≡ c.revisions)
            ⊎ ((r : RevisionRow) × (c'.revisions ≡ c.revisions ++ r ∷ [])))
  unfolding acknowledge
  ingest-IsWhole durable s producer request_id checkpoint raw c c' answer injective distinct whole
        h =
      elim (ingest_cases durable s producer request_id checkpoint raw c c' answer h) [
        | inl (same, _, _, _, _) ↦ rw same (whole, Keeps-refl c.evidence, inl refl)
        | inr (inl (r, there, same)) ↦ rw same (
          (
            whole.0,
            whole.1,
            All-append (Receipted c.revisions) c.receipts (_ ∷ []) whole.2 ((r, there), tt),
          ),
          Keeps-refl c.evidence,
          inl refl,
        )
        | inr (inr (mid, done, same)) ↦
            let (sound, stored, keeps, receipts, r, added, owner, named) =
              new_revision-IsWhole s c mid injective distinct whole done in
            let found : (x : RevisionRow) × (revision_row s.session_id (session_digest s)
                    mid.revisions
                  ≡ some x) =
              rw added
                (revision_row_new s.session_id (session_digest s) c.revisions r owner named) in
            let old : All (Receipted mid.revisions) mid.receipts =
              rw (receipts, added)
                (All-mono {P = Receipted c.revisions} {Q = Receipted (c.revisions ++ r ∷ [])}
                  (Receipted-append c.revisions r) c.receipts whole.2) in
            rw same (
              (
                sound,
                stored,
                All-append (Receipted mid.revisions) mid.receipts (_ ∷ []) old (found, tt),
              ),
              keeps,
              inr (r, added),
            )
      ]
