-- ===== src/Catalog.antt =====
-- src/session_search/storage/catalog.py: `Catalog.ingest` over the tables of Catalog/Tables. A
-- transaction is a function to a result: an error leaves the catalog as it was. Parameters: the
-- digest of a session, that of an event within its session, and whether a raw file is archived.
pub mod Tables
pub mod Evidence
pub mod Read
pub mod Reading
pub mod Faithful
pub mod Stored
pub mod Export
pub mod Indexed
pub mod Indexing
pub mod Receipts
pub mod Sources
mod Digests
mod Examples
use session_search.Base.{
  ℕ, zero, suc, max, String, Bool, true, false, not, ◌&&◌, ◌||◌, Option, none, some, List, [], ◌∷◌,
  ◌++◌, map, if◌then◌else◌, ◌==◌, Eq, nat_eq, string_eq, string_dec, contains, length, select,
  exists, find, lookup, upsert,
}
use session_search.Base.Result.{
  Result, ok, err, Error, value_error, permission_error, integrity_error,
}
use session_search.Records.{Event, SessionRevision}
use session_search.Catalog.Tables.{
  undurable, EvidenceRow, ActiveEvent, RevisionRow, Receipt, Producer, producer_dec, producer_eq,
  Raw, RawSource, ProjectAlias, Checkpoint, Catalog, next_row, revision_row, head_row, in_session,
  active_rows, same_hash, add_evidence, row_of, aliased, same_alias, add_alias, stays_indexed,
  same_request, same_raw, acknowledge, Ingested,
}

module _ (event_digest : String → Event → String) where
  -- One round of the loop over the events of a new revision.
  unfoldable pub insert_event : List ℕ → String → ℕ → Event → Catalog → Result (ℕ × Catalog)
  insert_event previous session index event c =
      let (row, evidence) = add_evidence session (event_digest session event) event c.evidence in
      let active : List ActiveEvent =
        c.active ++ record { session_id = session; ordinal = index; event_row = row } ∷ [] in
      if contains previous row
      then ok (row, record c { evidence = evidence; active = active })
      else elim (lookup row c.evidence_fts) [
        | some _ ↦ err integrity_error
        | none ↦ ok (
          row,
          record c {
            evidence = evidence;
            active = active;
            evidence_fts = c.evidence_fts ++ (row, event.text) ∷ [];
          },
        )
      ]

  unfoldable pub insert_events :
      List ℕ → String → ℕ → List Event → Catalog → Result (List ℕ × Catalog)
  insert_events previous session index [] c = ok ([], c)
  insert_events previous session index (event ∷ events) c =
      elim (insert_event previous session index event c) [
        | err e ↦ err e
        | ok (row, c') ↦ elim (insert_events previous session (suc index) events c') [
          | err e ↦ err e
          | ok (rows, last) ↦ ok (row ∷ rows, last)
        ]
      ]

  -- The branch of `ingest` for a revision that is not in the catalog.
  unfoldable pub new_revision : String → SessionRevision → Catalog → Result Catalog
  new_revision revision s c =
      let previous : List ℕ = active_rows s.session_id c.active in
      let cleared : Catalog = record c {
        active = select (λ a. not (in_session s.session_id a)) c.active;
      } in
      elim (insert_events previous s.session_id 0 s.events cleared) [
        | err e ↦ err e
        | ok (rows, c') ↦ ok (record c' {
          evidence_fts = select (stays_indexed previous rows) c'.evidence_fts;
          revisions = c.revisions ++ row_of revision s rows ∷ [];
          heads = upsert s.session_id revision c.heads;
          project_aliases = add_alias revision s (head_row s.session_id c) c.project_aliases;
        })
      ]

  module _ (session_digest : SessionRevision → String) (durable : String → ℕ → Bool) where
    -- The transaction of `ingest`.
    unfoldable pub transaction :
        SessionRevision
        → String
        → String
        → Option (String × String)
        → Option Raw
        → Catalog
        → Result (Ingested × Catalog)
    transaction s producer request_id checkpoint raw c =
        let revision : String = session_digest s in
        let answer : Bool → Ingested =
          λ d. record { session_id = s.session_id; revision = revision; duplicate = d } in
        elim (find (same_request producer request_id) c.receipts) [
          | some prior ↦
              if prior.session_id == s.session_id && prior.revision == revision
              then ok (answer true, c)
              else err value_error
          | none ↦ elim (revision_row s.session_id revision c.revisions) [
            | some _ ↦ ok (
              answer true,
              acknowledge s.session_id revision producer request_id checkpoint raw c,
            )
            | none ↦ elim (new_revision revision s c) [
              | err e ↦ err e
              | ok c' ↦ ok (
                answer false,
                acknowledge s.session_id revision producer request_id checkpoint raw c',
              )
            ]
          ]
        ]

    -- `Catalog.ingest`
    unfoldable pub ingest :
        SessionRevision
        → String
        → String
        → Option (String × String)
        → Option Raw
        → Catalog
        → Result (Ingested × Catalog)
    ingest s producer request_id checkpoint raw c =
        if c.readonly
        then err permission_error
        else if producer == "" || request_id == ""
        then err value_error
        else if undurable durable raw
        then err value_error
        else transaction s producer request_id checkpoint raw c
