-- ===== src/Catalog/Export.antt =====
-- Exports of stored revisions.
use session_search.Base.{
  ℕ, ◌≡◌, refl, sym, ap, subst, ◌∙◌, inl, inr, String, Bool, true, ◌&&◌, Option, some, List, [],
  ◌∷◌, arith, ◌==◌, string_eq, Bool-cases, find, All,
}
use session_search.Base.Result.{ok}
use session_search.Records.{Event, SessionRevision}
use session_search.Records.Accepted.{Distinct, event_ids}
use session_search.Catalog.{ingest}
use session_search.Catalog.Tables.{
  Catalog, RevisionRow, Raw, Ingested, row_of, revision_row, acknowledge, same_request,
}
use session_search.Catalog.Evidence.{IsInjective}
use session_search.Catalog.Read.{read_events, revision_event_ids, export_revision}
use session_search.Catalog.Reading.{read_events-Holds}
use session_search.Catalog.Stored.{
  IsStored, IsWhole, Receipted, ingest-IsWhole, ingest_cases, new_revision-IsWhole,
  revision_row_new,
}

find-All {ℓ κ} :
    {A : Type ℓ} (P : A → Type κ) (p : A → Bool) (xs : List A) (x : A)
    → All P xs
    → find p xs ≡ some x
    → P x × (p x ≡ true)
unfolding find
find-All P p [] x all h = absurd (ground arith)
find-All P p (y ∷ xs) x all h = elim (Bool-cases (p y)) [
  | inl yes_ ↦
      (let same : y ≡ x = ground arith in subst (λ z. P z × (p z ≡ true)) same (all.0, yes_))
  | inr no_ ↦ find-All P p xs x all.1 (ground arith)
]

abbrev session_of : RevisionRow → List Event → SessionRevision
session_of r events = record {
  session_id = r.session_id;
  events = events;
  source = r.source;
  project = r.project;
  title = r.title;
  parent_session_id = r.parent_session_id;
  is_subagent = r.is_subagent;
  parser_version = r.parser_version;
}

export_lem :
    (session revision : String) (c : Catalog) (r : RevisionRow) (events : List Event)
    → revision_row session revision c.revisions ≡ some r
    → read_events r.event_map c.evidence ≡ ok events
    → export_revision session revision c ≡ ok (session_of r events)
unfolding export_revision revision_event_ids
export_lem session revision c r events found read =
    rw (export_revision, revision_event_ids, found, found, read) refl

module _ (event_digest : String → Event → String) (session_digest : SessionRevision → String) where
  -- In a catalog with sound evidence whose event maps name the events of a session, exporting a
  -- revision that is there succeeds, with a session of the identity asked for whose digest is the
  -- revision asked for.
  pub export_revision-IsWhole :
      (session revision : String) (c : Catalog) (r : RevisionRow)
      → IsWhole event_digest session_digest c
      → revision_row session revision c.revisions ≡ some r
      → (s : SessionRevision) × (export_revision session revision c ≡ ok s)
        × (s.session_id ≡ session)
        × (session_digest s ≡ revision)
  unfolding row_of revision_row
  export_revision-IsWhole session revision c r whole found =
      let at : IsStored event_digest session_digest c.evidence r
          × ((r.session_id == session && r.revision == revision) ≡ true) =
        find-All (IsStored event_digest session_digest c.evidence)
          (λ (x : RevisionRow). x.session_id == session && x.revision == revision) c.revisions r
          whole.1 found in
      let (s, named, row, holds, distinct) = at.0 in
      let read : read_events r.event_map c.evidence ≡ ok s.events =
        read_events-Holds event_digest c.evidence s.session_id r.event_map s.events whole.0 distinct
          holds in
      let owner : r.session_id ≡ session =
        (let t : (r.session_id == session && r.revision == revision) ≡ true = at.1 in
          ground arith) in
      let key : r.revision ≡ revision =
        (let t : (r.session_id == session && r.revision == revision) ≡ true = at.1 in
          ground arith) in
      (
        s,
        export_lem session revision c r s.events found read
            ∙ ap (λ (x : RevisionRow). ok (session_of x s.events)) (sym row),
        ap (λ (x : RevisionRow). x.session_id) row ∙ owner,
        named ∙ key,
      )

  -- When no two events and no two sessions share a digest: a session whose events have different
  -- identities and that ingest accepts, as new, as known or as a repeated request, is what
  -- export_revision then gives back for its revision, event for event; the catalog before has sound
  -- evidence, event maps that name the events of a session, and no receipt without its revision.
  pub ingest-export_revision :
      (durable : String → ℕ → Bool) (s : SessionRevision) (producer request_id : String)
      (checkpoint : Option (String × String)) (raw : Option Raw) (c c' : Catalog)
      (answer : Ingested)
      → IsInjective event_digest
      → ((a b : SessionRevision) → session_digest a ≡ session_digest b → a ≡ b)
      → Distinct (event_ids s)
      → IsWhole event_digest session_digest c
      → ingest event_digest session_digest durable s producer request_id checkpoint raw c
        ≡ ok (answer, c')
      → export_revision s.session_id (session_digest s) c' ≡ ok s
  unfolding acknowledge
  ingest-export_revision durable s producer request_id checkpoint raw c c' answer injective unique
        distinct whole h =
      let whole' : IsWhole event_digest session_digest c' =
        (ingest-IsWhole event_digest session_digest durable s producer request_id checkpoint raw c
          c' answer injective distinct whole h).0 in
      let there : (r : RevisionRow) × (revision_row s.session_id (session_digest s) c'.revisions
            ≡ some r) =
        elim (ingest_cases event_digest session_digest durable s producer request_id checkpoint raw
          c c' answer h) [
            | inl (same, prior, found, owner, key) ↦
                let known : (r : RevisionRow) × (revision_row prior.session_id prior.revision
                        c.revisions
                      ≡ some r) =
                  (find-All (Receipted c.revisions) (same_request producer request_id) c.receipts
                    prior whole.2 found).0 in
                (
                  known.0,
                  ap (λ x. revision_row s.session_id (session_digest s) x.revisions) same
                      ∙ ap (λ k. revision_row k (session_digest s) c.revisions) (sym owner)
                      ∙ ap (λ k. revision_row prior.session_id k c.revisions) (sym key)
                      ∙ known.1,
                )
            | inr (inl (r, found, same)) ↦
                (r, ap (λ x. revision_row s.session_id (session_digest s) x.revisions) same ∙ found)
            | inr (inr (mid, done, same)) ↦
                let (_, _, _, _, r, added, owner, named) =
                  new_revision-IsWhole event_digest session_digest s c mid injective distinct whole
                    done in
                let (x, found) =
                  revision_row_new s.session_id (session_digest s) c.revisions r owner named in
                (
                  x,
                  ap (λ x. revision_row s.session_id (session_digest s) x.revisions) same
                      ∙ rw added found,
                )
          ] in
      let (s', out, _, same_digest) =
        export_revision-IsWhole s.session_id (session_digest s) c' there.0 whole' there.1 in
      out ∙ ap ok (unique s' s same_digest)
