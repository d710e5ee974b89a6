-- ===== src/Catalog/Receipts.antt =====
-- Requests that are sent again.
use session_search.Base.{
  ℕ, suc, ◌≡◌, refl, sym, ap, subst, ◌∙◌, inl, inr, String, Bool, true, false, not, ◌&&◌, ◌||◌,
  Option, none, some, List, [], ◌∷◌, ◌++◌, arith, if◌then◌else◌, ◌==◌, string_eq, Bool-cases,
  Option-cases, find, select,
}
use session_search.Base.Result.{Result-cases, ok, err, value_error}
use session_search.Records.{Event, SessionRevision}
use session_search.Catalog.{insert_event, insert_events, new_revision, transaction, ingest}
use session_search.Catalog.Tables.{
  Catalog, Receipt, Raw, Ingested, revision_row, active_rows, in_session, acknowledge, same_request,
  undurable,
}
use session_search.Catalog.Faithful.{insert_events_step, nothing}

find-append :
    (p : Receipt → Bool) (xs : List Receipt) (x : Receipt)
    → find p xs ≡ none
    → p x ≡ true
    → find p (xs ++ x ∷ []) ≡ some x
unfolding find
find-append p [] x none_yet hit = rw hit refl
find-append p (y ∷ xs) x none_yet hit = ground (arith, find-append p xs x (ground arith) hit)

module _ (event_digest : String → Event → String) (session_digest : SessionRevision → String) where
  -- What no insertion of an event changes.
  abbrev SameLog : Catalog → Catalog → Type 0
  SameLog c c' = (c'.receipts ≡ c.receipts) × (c'.readonly ≡ c.readonly)

  insert_event-SameLog :
      (previous : List ℕ) (session : String) (index : ℕ) (event : Event) (c c' : Catalog) (row : ℕ)
      → insert_event event_digest previous session index event c ≡ ok (row, c')
      → SameLog c c'
  unfolding insert_event
  insert_event-SameLog previous session index event c c' row h = (ground arith, ground arith)

  insert_events-SameLog :
      (previous : List ℕ) (session : String) (index : ℕ) (events : List Event) (c c' : Catalog)
      (ids : List ℕ)
      → insert_events event_digest previous session index events c ≡ ok (ids, c')
      → SameLog c c'
  insert_events-SameLog previous session index [] c c' ids h =
      let done : (ids ≡ []) × (c' ≡ c) = nothing event_digest previous session index c c' ids h in
      (ap (λ x. x.receipts) done.1, ap (λ x. x.readonly) done.1)
  insert_events-SameLog previous session index (event ∷ events) c c' ids h =
      let (row, mid, rows, first, rest, is) =
        insert_events_step event_digest previous session index event events c c' ids h in
      let one : SameLog c mid = insert_event-SameLog previous session index event c mid row first in
      let others : SameLog mid c' =
        insert_events-SameLog previous session (suc index) events mid c' rows rest in
      (others.0 ∙ one.0, others.1 ∙ one.1)

  new_revision-SameLog :
      (s : SessionRevision) (c c' : Catalog)
      → new_revision event_digest (session_digest s) s c ≡ ok c'
      → SameLog c c'
  unfolding new_revision
  new_revision-SameLog s c c' h =
      let cleared : Catalog = record c {
        active = select (λ a. not (in_session s.session_id a)) c.active;
      } in
      elim (Result-cases (
        insert_events event_digest (active_rows s.session_id c.active) s.session_id 0 s.events
          cleared)) [
            | inr (e, failed) ↦ absurd (ground arith)
            | inl ((ids, mid), inserted) ↦
                let same : SameLog cleared mid =
                  insert_events-SameLog (active_rows s.session_id c.active) s.session_id 0 s.events
                    cleared mid ids inserted in
                (ground (arith, same.0), ground (arith, same.1))
          ]

  -- The receipt of a request that has been answered.
  abbrev Answered : SessionRevision → String → String → Catalog → Type 0
  Answered s producer request_id c =
      (c.readonly ≡ false)
      × ((producer == "" || request_id == "") ≡ false)
      × (r : Receipt) × (find (same_request producer request_id) c.receipts ≡ some r)
      × (r.session_id ≡ s.session_id)
      × (r.revision ≡ session_digest s)

  acknowledge-Answered :
      (s : SessionRevision) (producer request_id : String) (checkpoint : Option (String × String))
      (raw : Option Raw) (c : Catalog)
      → c.readonly ≡ false
      → (producer == "" || request_id == "") ≡ false
      → find (same_request producer request_id) c.receipts ≡ none
      → Answered s producer request_id
          (acknowledge s.session_id (session_digest s) producer request_id checkpoint raw c)
  unfolding acknowledge
  acknowledge-Answered s producer request_id checkpoint raw c writable named fresh =
      let r : Receipt = record {
        producer = producer;
        request_id = request_id;
        session_id = s.session_id;
        revision = session_digest s;
      } in
      (
        writable,
        named,
        r,
        find-append (same_request producer request_id) c.receipts r fresh (ground arith),
        refl,
        refl,
      )

  ingest-Answered :
      (durable : String → ℕ → Bool) (s : SessionRevision) (producer request_id : String)
      (checkpoint : Option (String × String)) (raw : Option Raw) (c c' : Catalog)
      (answer : Ingested)
      → ingest event_digest session_digest durable s producer request_id checkpoint raw c
        ≡ ok (answer, c')
      → Answered s producer request_id c'
  unfolding ingest transaction
  ingest-Answered durable s producer request_id checkpoint raw c c' answer h =
      elim (Bool-cases c.readonly) [
        | inl read ↦ absurd (ground arith)
        | inr writable ↦ elim (Bool-cases (producer == "" || request_id == "")) [
          | inl nameless ↦ absurd (ground arith)
          | inr named ↦ elim (Option-cases (find (same_request producer request_id) c.receipts)) [
            | inr (prior, found) ↦
                let same : c' ≡ c = ground arith in
                subst (Answered s producer request_id) (sym same)
                  (writable, named, prior, found, ground arith, ground arith)
            | inl fresh ↦
                elim (Option-cases (revision_row s.session_id (session_digest s) c.revisions)) [
                  | inr (r, there) ↦
                      let same : c'
                          ≡ acknowledge s.session_id (session_digest s) producer request_id
                              checkpoint raw c =
                        ground arith in
                      subst (Answered s producer request_id) (sym same) (
                        acknowledge-Answered s producer request_id checkpoint raw c writable named
                          fresh)
                  | inl new ↦
                      elim (Result-cases (new_revision event_digest (session_digest s) s c)) [
                        | inr (e, failed) ↦ absurd (ground arith)
                        | inl (mid, done) ↦
                            let log : SameLog c mid = new_revision-SameLog s c mid done in
                            let same : c'
                                ≡ acknowledge s.session_id (session_digest s) producer request_id
                                    checkpoint raw mid =
                              ground arith in
                            subst (Answered s producer request_id) (sym same) (
                              acknowledge-Answered s producer request_id checkpoint raw mid
                                (log.1 ∙ writable) named
                                (ap (find (same_request producer request_id)) log.0 ∙ fresh))
                      ]
                ]
          ]
        ]
      ]

  -- After an ingest that succeeds, one more with the same producer and request, and with a raw file
  -- that is archived or with none, is answered as a duplicate that changes nothing if it is the
  -- same revision of the same session, and is a ValueError otherwise.
  pub ingest_again :
      (durable durable' : String → ℕ → Bool) (s s' : SessionRevision) (producer request_id : String)
      (checkpoint checkpoint' : Option (String × String)) (raw raw' : Option Raw) (c c' : Catalog)
      (answer : Ingested)
      → ingest event_digest session_digest durable s producer request_id checkpoint raw c
        ≡ ok (answer, c')
      → undurable durable' raw' ≡ false
      → ingest event_digest session_digest durable' s' producer request_id checkpoint' raw' c' ≡ (
          if s.session_id == s'.session_id && session_digest s == session_digest s'
          then ok (
            record { session_id = s'.session_id; revision = session_digest s'; duplicate = true },
            c',
          )
          else err value_error)
  unfolding ingest transaction
  ingest_again durable durable' s s' producer request_id checkpoint checkpoint' raw raw' c c' answer
        h kept =
      let (writable, named, r, found, owner, key) =
        ingest-Answered durable s producer request_id checkpoint raw c c' answer h in
      ground (arith, writable, named, kept, found, owner, key)
