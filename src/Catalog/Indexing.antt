-- ===== src/Catalog/Indexing.antt =====
-- `ingest` keeps the search index and the active events together.
use session_search.Base.{
  lookup_keys, ℕ, suc, ◌≡◌, refl, sym, ap, subst, ◌∙◌, inl, inr, String, Bool, true, false, not,
  ◌&&◌, ◌||◌, Option, none, some, List, [], ◌∷◌, arith, if◌then◌else◌, ◌==◌, nat_eq, string_eq,
  Bool-cases, select, exists, contains, All, All-select, lookup,
}
use session_search.Base.Result.{ok}
use session_search.Records.{Event, SessionRevision}
use session_search.Catalog.{insert_events, new_revision, ingest}
use session_search.Catalog.Tables.{
  Catalog, EvidenceRow, ActiveEvent, Raw, Ingested, active_rows, in_session, stays_indexed,
  acknowledge,
}
use session_search.Catalog.Evidence.{row_at, IsInjective, Sound}
use session_search.Catalog.Faithful.{insert_events_step, nothing}
use session_search.Catalog.Stored.{new_revision_ok, ingest_cases}
use session_search.Catalog.Indexed.{
  is_active, text_at, Owned, OwnedEvent, IsIndexed, Loop, insert_event-Loop,
}

-- The active events are those of the other sessions and those of this one.
is_active_split :
    (session : String) (active : List ActiveEvent) (i : ℕ)
    → is_active i active ≡ (
        is_active i (select (λ a. not (in_session session a)) active)
        || contains (active_rows session active) i)
unfolding select exists active_rows
is_active_split session [] i = refl
is_active_split session (a ∷ active) i = ground (arith, is_active_split session active i)

active_rows-Owned :
    (rows : List EvidenceRow) (session : String) (active : List ActiveEvent) (i : ℕ)
    → All (OwnedEvent rows) active
    → contains (active_rows session active) i ≡ true
    → Owned rows session i
unfolding select active_rows
active_rows-Owned rows session [] i owned h = absurd (ground arith)
active_rows-Owned rows session (a ∷ active) i owned h =
    elim (Bool-cases (a.session_id == session)) [
      | inr other ↦ active_rows-Owned rows session active i owned.1 (ground arith)
      | inl mine ↦ elim (Bool-cases (a.event_row == i)) [
        | inl it ↦
            let (e, there, owner) = owned.0 in
            (
              e,
              ap (λ k. row_at k rows) (let eq : i ≡ a.event_row = ground arith in eq) ∙ there,
              owner ∙ (let eq : a.session_id ≡ session = ground arith in eq),
            )
        | inr later ↦ active_rows-Owned rows session active i owned.1 (ground arith)
      ]
    ]

-- No row is active in two sessions.
apart :
    (rows : List EvidenceRow) (session : String) (active : List ActiveEvent) (i : ℕ)
    → All (OwnedEvent rows) active
    → Owned rows session i
    → is_active i (select (λ a. not (in_session session a)) active) ≡ false
unfolding select exists
apart rows session [] i owned mine = refl
apart rows session (a ∷ active) i owned mine =
    let ih : is_active i (select (λ a. not (in_session session a)) active) ≡ false =
      apart rows session active i owned.1 mine in
    elim (Bool-cases (a.event_row == i)) [
      | inr other ↦ ground (arith, ih)
      | inl it ↦
          let (e, there, owner) = owned.0 in
          let (f, found, owner') = mine in
          let at : row_at i rows ≡ some e =
            ap (λ k. row_at k rows) (let eq : i ≡ a.event_row = ground arith in eq) ∙ there in
          let one : f ≡ e = cc in
          let same : a.session_id ≡ session =
            sym owner ∙ ap (λ (x : EvidenceRow). x.session_id) (sym one) ∙ owner' in
          ground (arith, ih, same)
    ]

module _ (event_digest : String → Event → String) where
  insert_events-Loop :
      (previous : List ℕ) (session : String) (index : ℕ) (events : List Event) (c c' : Catalog)
      (ids : List ℕ)
      → IsInjective event_digest
      → Loop event_digest previous session c
      → insert_events event_digest previous session index events c ≡ ok (ids, c')
      → Loop event_digest previous session c'
        × ((i : ℕ) → is_active i c'.active ≡ (is_active i c.active || contains ids i))
  insert_events-Loop previous session index [] c c' ids injective loop h =
      let done : (ids ≡ []) × (c' ≡ c) = nothing event_digest previous session index c c' ids h in
      (
        subst (Loop event_digest previous session) (sym done.1) loop,
        λ i.
            ap (λ x. is_active i x.active) done.1
            ∙ (let e : contains ids i ≡ false = ap (λ l. contains l i) done.0 in ground arith),
      )
  insert_events-Loop previous session index (event ∷ events) c c' ids injective loop h =
      let (row, mid, rows, first, rest, is) =
        insert_events_step event_digest previous session index event events c c' ids h in
      let (loop', more, _) =
        insert_event-Loop event_digest previous session index event c mid row injective loop
          first in
      let (end, others) =
        insert_events-Loop previous session (suc index) events mid c' rows injective loop' rest in
      (end, λ i. ground (arith, others i, more i, ap (λ l. contains l i) is))

  new_revision-IsIndexed :
      (session_digest : SessionRevision → String) (s : SessionRevision) (c c' : Catalog)
      → IsInjective event_digest
      → Sound event_digest c.evidence
      → IsIndexed c
      → new_revision event_digest (session_digest s) s c ≡ ok c'
      → IsIndexed c'
  new_revision-IsIndexed session_digest s c c' injective sound (owned, at) h =
      let (ids, mid, inserted, evidence, _, _, active, fts, _) =
        new_revision_ok event_digest session_digest s c c' h in
      let previous : List ℕ = active_rows s.session_id c.active in
      let others : List ActiveEvent = select (λ a. not (in_session s.session_id a)) c.active in
      let begin : Loop event_digest previous s.session_id (record c { active = others }) = (
        sound,
        All-select (OwnedEvent c.evidence) (λ a. not (in_session s.session_id a)) c.active owned,
        λ i. active_rows-Owned c.evidence s.session_id c.active i owned,
        λ i. ground (arith, at i, is_active_split s.session_id c.active i),
      ) in
      let (loop, now) =
        insert_events-Loop previous s.session_id 0 s.events (record c { active = others }) mid ids
          injective begin inserted in
      let (_, owned', mine, at') = loop in
      let keep : ℕ → Bool = λ i. not (contains previous i && not (contains ids i)) in
      let gone : (i : ℕ) → contains previous i ≡ true → is_active i others ≡ false = λ i old.
        apart c.evidence s.session_id c.active i owned
          (active_rows-Owned c.evidence s.session_id c.active i owned old) in
      let indexed : (i : ℕ)
          → lookup i (select (stays_indexed previous ids) mid.evidence_fts)
            ≡ (if is_active i mid.active then text_at mid.evidence i else none) =
        λ i. elim (Bool-cases (contains previous i)) [
          | inl old ↦ ground (arith, lookup_keys i keep mid.evidence_fts, at' i, now i, gone i old)
          | inr new ↦ ground (arith, lookup_keys i keep mid.evidence_fts, at' i, now i)
        ] in
      (rw (evidence, active) owned', λ i. rw (fts, active, evidence) (indexed i))

  -- When no two events share a digest and the evidence is sound: if every active event is one of
  -- its session and the search index holds the text of each row that is active and of no other,
  -- then so it is after an ingest that succeeds.
  pub ingest-IsIndexed :
      (session_digest : SessionRevision → String) (durable : String → ℕ → Bool)
      (s : SessionRevision) (producer request_id : String) (checkpoint : Option (String × String))
      (raw : Option Raw) (c c' : Catalog) (answer : Ingested)
      → IsInjective event_digest
      → Sound event_digest c.evidence
      → IsIndexed c
      → ingest event_digest session_digest durable s producer request_id checkpoint raw c
        ≡ ok (answer, c')
      → IsIndexed c'
  unfolding acknowledge
  ingest-IsIndexed session_digest durable s producer request_id checkpoint raw c c' answer injective
        sound indexed h =
      elim (ingest_cases event_digest session_digest durable s producer request_id checkpoint raw c
        c' answer h) [
          | inl (same, _, _, _, _) ↦ subst IsIndexed (sym same) indexed
          | inr (inl (_, _, same)) ↦ subst IsIndexed (sym same) indexed
          | inr (inr (mid, done, same)) ↦
              let kept : IsIndexed mid =
                new_revision-IsIndexed session_digest s c mid injective sound indexed done in
              subst IsIndexed (sym same) kept
        ]
