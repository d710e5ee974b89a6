-- ===== src/Catalog/Indexed.antt =====
-- The search index holds the text of the active events and nothing else.
use session_search.Base.{
  ℕ, ◌≡◌, ◌⊎◌, refl, sym, ap, subst, ◌∙◌, inl, inr, String, Bool, true, false, ◌||◌, Option, none,
  some, List, [], ◌∷◌, ◌++◌, arith, if◌then◌else◌, ◌==◌, nat_eq, string_eq, Bool-cases, exists,
  contains, All, All-mono, All-append, lookup,
}
use session_search.Base.Result.{ok}
use session_search.Records.{Event}
use session_search.Catalog.{insert_event}
use session_search.Catalog.Tables.{Catalog, EvidenceRow, ActiveEvent, add_evidence}
use session_search.Catalog.Evidence.{row_at, IsInjective, Keeps, Sound, Added, add_evidence-Added}

abbrev pub is_active : ℕ → List ActiveEvent → Bool
is_active i active = exists (λ (a : ActiveEvent). a.event_row == i) active

abbrev pub text_at : List EvidenceRow → ℕ → Option String
text_at rows i = elim (row_at i rows) [ none ↦ none | some e ↦ some e.event.text ]

text_at_lem :
    (rows : List EvidenceRow) (i : ℕ) (e : EvidenceRow)
    → row_at i rows ≡ some e
    → text_at rows i ≡ some e.event.text
text_at_lem rows i e h = rw (text_at, h) refl

-- An active event is one of its session.
abbrev pub Owned : List EvidenceRow → String → ℕ → Type 0
Owned rows session i = (e : EvidenceRow) × (row_at i rows ≡ some e) × (e.session_id ≡ session)

abbrev pub OwnedEvent : List EvidenceRow → ActiveEvent → Type 0
OwnedEvent rows a = Owned rows a.session_id a.event_row

abbrev pub IsIndexed : Catalog → Type 0
IsIndexed c =
    All (OwnedEvent c.evidence) c.active
    × ((i : ℕ)
        → lookup i c.evidence_fts ≡ (if is_active i c.active then text_at c.evidence i else none))

exists-append :
    (p : ActiveEvent → Bool) (xs ys : List ActiveEvent)
    → exists p (xs ++ ys) ≡ (exists p xs || exists p ys)
unfolding exists
exists-append p [] ys = refl
exists-append p (x ∷ xs) ys = ground (arith, exists-append p xs ys)

lookup-append :
    (i : ℕ) (fts : List (ℕ × String)) (row : ℕ) (text : String)
    → lookup i (fts ++ (row, text) ∷ [])
      ≡ elim (lookup i fts) [ some t ↦ some t | none ↦ if i == row then some text else none ]
unfolding lookup
lookup-append i [] row text = ground arith
lookup-append i ((j, t) ∷ fts) row text = ground (arith, lookup-append i fts row text)

is_active_last :
    (i : ℕ) (active : List ActiveEvent) (a : ActiveEvent)
    → is_active i (active ++ a ∷ []) ≡ (is_active i active || a.event_row == i)
unfolding exists
is_active_last i active a =
    ground (arith, exists-append (λ (x : ActiveEvent). x.event_row == i) active (a ∷ []))

active_row :
    (i : ℕ) (rows : List EvidenceRow) (active : List ActiveEvent)
    → All (OwnedEvent rows) active
    → is_active i active ≡ true
    → (e : EvidenceRow) × (row_at i rows ≡ some e)
unfolding exists
active_row i rows [] owned h = absurd (ground arith)
active_row i rows (a ∷ active) owned h = elim (Bool-cases (a.event_row == i)) [
  | inl it ↦
      (owned.0.0, ap (λ k. row_at k rows) (let e : i ≡ a.event_row = ground arith in e) ∙ owned.0.1)
  | inr other ↦ active_row i rows active owned.1 (ground arith)
]

module _ (event_digest : String → Event → String) where
  -- The state of the loop: what was active before counts as indexed until the end.
  abbrev pub Loop : List ℕ → String → Catalog → Type 0
  Loop previous session c =
      Sound event_digest c.evidence
      × All (OwnedEvent c.evidence) c.active
      × ((i : ℕ) → contains previous i ≡ true → Owned c.evidence session i)
      × ((i : ℕ)
          → lookup i c.evidence_fts
            ≡ (if is_active i c.active || contains previous i then text_at c.evidence i else none))

  -- What one round does.
  insert_event_cases :
      (previous : List ℕ) (session : String) (index : ℕ) (event : Event) (c c' : Catalog) (row : ℕ)
      → insert_event event_digest previous session index event c ≡ ok (row, c')
      → (add_evidence session (event_digest session event) event c.evidence ≡ (row, c'.evidence))
        × (c'.active
            ≡ c.active ++ record { session_id = session; ordinal = index; event_row = row } ∷ [])
        × (((contains previous row ≡ true) × (c'.evidence_fts ≡ c.evidence_fts))
            ⊎ ((contains previous row ≡ false)
                × (lookup row c.evidence_fts ≡ none)
                × (c'.evidence_fts ≡ c.evidence_fts ++ (row, event.text) ∷ [])))
  unfolding insert_event
  insert_event_cases previous session index event c c' row h = (
    ground arith,
    ground arith,
    elim (Bool-cases (
        contains previous (add_evidence session (event_digest session event) event c.evidence).0)) [
          | inl old ↦ inl (ground arith, ground arith)
          | inr new ↦ inr (ground arith, ground arith, ground arith)
        ],
  )

  -- A row that is active or was so keeps its text.
  text_stays :
      (previous : List ℕ) (session : String) (c : Catalog) (rows : List EvidenceRow) (i : ℕ)
      → Loop previous session c
      → Keeps c.evidence rows
      → (is_active i c.active || contains previous i) ≡ true
      → (t : String) × (text_at c.evidence i ≡ some t) × (text_at rows i ≡ some t)
  text_stays previous session c rows i (sound, owned, before, at) keeps used =
      let there : (e : EvidenceRow) × (row_at i c.evidence ≡ some e) =
        elim (Bool-cases (is_active i c.active)) [
          | inl now ↦ active_row i c.evidence c.active owned now
          | inr later ↦ (let (e, found, _) = before i (ground arith) in (e, found))
        ] in
      let kept : row_at i rows ≡ some there.0 = keeps.at_row i there.0 there.1 in
      (
        there.0.event.text,
        text_at_lem c.evidence i there.0 there.1,
        text_at_lem rows i there.0 kept,
      )

  pub insert_event-Loop :
      (previous : List ℕ) (session : String) (index : ℕ) (event : Event) (c c' : Catalog) (row : ℕ)
      → IsInjective event_digest
      → Loop previous session c
      → insert_event event_digest previous session index event c ≡ ok (row, c')
      → Loop previous session c'
        × ((i : ℕ) → is_active i c'.active ≡ (is_active i c.active || row == i))
        × Keeps c.evidence c'.evidence
  insert_event-Loop previous session index event c c' row injective loop h =
      let (sound, owned, before, at) = loop in
      let (evidence, active, fts) = insert_event_cases previous session index event c c' row h in
      let added : Added event_digest session event c.evidence (row, c'.evidence) =
        subst (Added event_digest session event c.evidence) evidence
          (add_evidence-Added event_digest session event c.evidence injective sound) in
      let (sound', keeps, e, there, same, owner) = added in
      let a : ActiveEvent = record { session_id = session; ordinal = index; event_row = row } in
      let more : (i : ℕ) → is_active i c'.active ≡ (is_active i c.active || row == i) =
        λ i. ap (is_active i) active ∙ is_active_last i c.active a in
      let owned' : All (OwnedEvent c'.evidence) (c.active ++ a ∷ []) =
        All-append (OwnedEvent c'.evidence) c.active (a ∷ [])
          (All-mono {P = OwnedEvent c.evidence} {Q = OwnedEvent c'.evidence}
            (λ x mine. (mine.0, keeps.at_row x.event_row mine.0 mine.1, mine.2)) c.active owned)
          ((e, there, owner), tt) in
      let new_text : (i : ℕ) → row == i ≡ true → text_at c'.evidence i ≡ some event.text = λ i it.
        (let eq : row ≡ i = ground arith in
          let found : row_at i c'.evidence ≡ some e =
            ap (λ k. row_at k c'.evidence) (sym eq) ∙ there in
          text_at_lem c'.evidence i e found ∙ ap (λ (x : Event). some x.text) same) in
      let was : (i : ℕ)
          → row == i ≡ true
          → (contains previous i ≡ contains previous row) × (i ≡ row) =
        λ i it. (let eq : i ≡ row = ground arith in (ap (contains previous) eq, eq)) in
      (
        (
          sound',
          subst (All (OwnedEvent c'.evidence)) (sym active) owned',
          λ i old. (let (x, found, mine) = before i old in (x, keeps.at_row i x found, mine)),
          λ i. elim (Bool-cases (is_active i c.active || contains previous i)) [
            | inl used ↦
                let (t, old_text, kept) =
                  text_stays previous session c c'.evidence i loop keeps used in
                elim fts [
                  | inl (_, unchanged) ↦ ground (arith, at i, more i, unchanged, old_text, kept)
                  | inr (_, _, appended) ↦ ground (
                    arith,
                    at i,
                    more i,
                    appended,
                    old_text,
                    kept,
                    lookup-append i c.evidence_fts row event.text,
                  )
                ]
            | inr unused ↦ elim (Bool-cases (row == i)) [
              | inl it ↦ elim fts [
                | inl (old, _) ↦ absurd (ground (arith, was i it))
                | inr (_, _, appended) ↦ ground (
                  arith,
                  at i,
                  more i,
                  appended,
                  new_text i it,
                  was i it,
                  lookup-append i c.evidence_fts row event.text,
                )
              ]
              | inr other ↦ elim fts [
                | inl (_, unchanged) ↦ ground (arith, at i, more i, unchanged)
                | inr (_, _, appended) ↦
                    ground
                      (arith, at i, more i, appended, lookup-append i c.evidence_fts row event.text)
              ]
            ]
          ],
        ),
        more,
        keeps,
      )
