-- ===== src/Catalog/Reading.antt =====
-- Reading in batches gives the events of the rows, in order.
use session_search.Base.{
  ℕ, suc, ◌+◌, ◌≡◌, ◌≢◌, refl, sym, ap, subst, ◌∙◌, inl, inr, String, true, false, ◌||◌, none, some,
  List, [], ◌∷◌, ◌++◌, map, arith, if◌then◌else◌, ◌==◌, nat_eq, string_eq, Bool-cases, select,
  contains, length, length-append, lookup, upsert, lookup-upsert, All, blocks, concat, concat-split,
}
use session_search.Base.Result.{ok}
use session_search.Records.{Event}
use session_search.Records.Accepted.{Distinct}
use session_search.Catalog.Tables.{EvidenceRow}
use session_search.Catalog.Evidence.{row_at, Sound}
use session_search.Catalog.Faithful.{Holds}
use session_search.Catalog.Read.{gather, gather_all, pick, read_events, batch_size}

-- No key stands twice.
abbrev Unrepeated : List ℕ → Type 0
Unrepeated [] = Unit
Unrepeated (i ∷ ids) = (contains ids i ≡ false) × Unrepeated ids

contains-append :
    (xs ys : List ℕ) (j : ℕ) → contains (xs ++ ys) j ≡ (contains xs j || contains ys j)
contains-append [] ys j = refl
contains-append (x ∷ xs) ys j = ground (arith, contains-append xs ys j)

Unrepeated-append :
    (xs ys : List ℕ)
    → Unrepeated (xs ++ ys)
    → Unrepeated xs × Unrepeated ys × ((j : ℕ) → contains xs j ≡ true → contains ys j ≡ false)
Unrepeated-append [] ys u = (tt, u, λ j h. absurd (ground arith))
Unrepeated-append (x ∷ xs) ys u =
    let (left, right, apart) = Unrepeated-append xs ys u.1 in
    (
      (ground (arith, contains-append xs ys x, u.0), left),
      right,
      λ j h. elim (Bool-cases (x == j)) [
        | inl same ↦ ground (arith, contains-append xs ys x, u.0)
        | inr differ ↦ apart j (ground arith)
      ],
    )

event_not_later :
    (rows : List EvidenceRow) (session : String) (i : ℕ) (r : EvidenceRow) (ids : List ℕ)
    (events : List Event)
    → row_at i rows ≡ some r
    → All (λ y. y ≢ r.event.event_id) (map (λ (e : Event). e.event_id) events)
    → Holds rows session ids events
    → contains ids i ≡ false
event_not_later rows session i r [] [] there other h = refl
event_not_later rows session i r [] (e ∷ events) there other h = absurd h
event_not_later rows session i r (j ∷ ids) [] there other h = absurd h
event_not_later rows session i r (j ∷ ids) (e ∷ events) there other h =
    let (r', there', same, _) = h.0 in
    let later : contains ids i ≡ false =
      event_not_later rows session i r ids events there other.1 h.1 in
    elim (Bool-cases (j == i)) [
      | inr differ ↦ ground (arith, later)
      | inl it ↦
          let at : row_at j rows ≡ row_at i rows =
            ap (λ k. row_at k rows) (let e : j ≡ i = ground arith in e) in
          let one : some r' ≡ some r = sym there' ∙ at ∙ there in
          let rows_same : r' ≡ r = cc in
          absurd (
            other.0 (
              ap (λ (x : Event). x.event_id) (sym same)
              ∙ ap (λ (x : EvidenceRow). x.event.event_id) rows_same))
    ]

Holds-Unrepeated :
    (rows : List EvidenceRow) (session : String) (ids : List ℕ) (events : List Event)
    → Distinct (map (λ (e : Event). e.event_id) events)
    → Holds rows session ids events
    → Unrepeated ids
Holds-Unrepeated rows session [] events d h = tt
Holds-Unrepeated rows session (i ∷ ids) [] d h = absurd h
Holds-Unrepeated rows session (i ∷ ids) (e ∷ events) d h =
    let (r, there, same, _) = h.0 in
    (
      event_not_later rows session i r ids events there
          (subst (λ (x : Event). All (λ y. y ≢ x.event_id) (map (λ (f : Event). f.event_id) events))
            (sym same) d.0)
          h.1,
      Holds-Unrepeated rows session ids events d.1 h.1,
    )

module _ (event_digest : String → Event → String) where
  same_row :
      (j : ℕ) (r : EvidenceRow) (rows : List EvidenceRow)
      → r.row_id == j ≡ true
      → (row_at j rows ≡ row_at r.row_id rows) × (j ≡ r.row_id)
  same_row j r rows h = let e : j ≡ r.row_id = ground arith in (ap (λ k. row_at k rows) e, e)

  length-upsert :
      (k : ℕ) (v : Event) (d : List (ℕ × Event))
      → lookup k d ≡ none
      → length (upsert k v d) ≡ suc (length d)
  unfolding lookup upsert
  length-upsert k v [] h = refl
  length-upsert k v ((j, w) ∷ d) h = ground (arith, length-upsert k v d)

  lookup-gather :
      (batch : List ℕ) (rows : List EvidenceRow) (d : List (ℕ × Event)) (j : ℕ)
      → Sound event_digest rows
      → lookup j (gather batch rows d) ≡ elim (row_at j rows) [
        | none ↦ lookup j d
        | some r ↦ if contains batch j then some r.event else lookup j d
      ]
  unfolding gather row_at
  lookup-gather batch [] d j s = refl
  lookup-gather batch (r ∷ rows) d j s =
      let d' : List (ℕ × Event) = upsert r.row_id r.event d in
      elim (Bool-cases (contains batch r.row_id)) [
        | inr out ↦ ground (arith, lookup-gather batch rows d j s.2, s.0, same_row j r rows)
        | inl in_batch ↦ ground (
          arith,
          lookup-gather batch rows d' j s.2,
          lookup-upsert j r.row_id r.event d,
          s.0,
          same_row j r rows,
        )
      ]

  abbrev picked : List ℕ → List EvidenceRow → List EvidenceRow
  picked batch rows = select (λ (r : EvidenceRow). contains batch r.row_id) rows

  length-gather :
      (batch : List ℕ) (rows : List EvidenceRow) (d : List (ℕ × Event))
      → Sound event_digest rows
      → ((j : ℕ) (r : EvidenceRow)
          → row_at j rows ≡ some r
          → contains batch j ≡ true
          → lookup j d ≡ none)
      → length (gather batch rows d) ≡ length d + length (picked batch rows)
  unfolding gather row_at select
  length-gather batch [] d s clear = omega arith
  length-gather batch (r ∷ rows) d s clear =
      let still : (j : ℕ) (x : EvidenceRow)
          → row_at j rows ≡ some x
          → contains batch j ≡ true
          → lookup j d ≡ none =
        λ j x there in_batch. elim (Bool-cases (r.row_id == j)) [
          | inl same ↦ absurd (ground (arith, same_row j r rows same, s.0))
          | inr differ ↦ clear j x (ground arith) in_batch
        ] in
      elim (Bool-cases (contains batch r.row_id)) [
        | inr out ↦ ground (arith, length-gather batch rows d s.2 still)
        | inl in_batch ↦
            let d' : List (ℕ × Event) = upsert r.row_id r.event d in
            let new : lookup r.row_id d ≡ none = clear r.row_id r (ground arith) in_batch in
            let later : (j : ℕ) (x : EvidenceRow)
                → row_at j rows ≡ some x
                → contains batch j ≡ true
                → lookup j d' ≡ none =
              λ j x there within. elim (Bool-cases (r.row_id == j)) [
                | inl same ↦ absurd (ground (arith, same_row j r rows same, s.0))
                | inr differ ↦
                    ground (arith, lookup-upsert j r.row_id r.event d, still j x there within)
              ] in
            ground
              (arith, length-gather batch rows d' s.2 later, length-upsert r.row_id r.event d new)
      ]

  length-picked :
      (b : ℕ) (batch : List ℕ) (rows : List EvidenceRow)
      → Sound event_digest rows
      → contains batch b ≡ false
      → length (picked (b ∷ batch) rows)
        ≡ (elim (row_at b rows) [ some _ ↦ 1 | none ↦ 0 ]) + length (picked batch rows)
  unfolding row_at select
  length-picked b batch [] s new = omega arith
  length-picked b batch (r ∷ rows) s new = elim (Bool-cases (r.row_id == b)) [
    | inl same ↦ ground (
      arith,
      length-picked b batch rows s.2 new,
      same_row b r rows same,
      s.0,
      new,
      ap (contains batch) ((same_row b r rows same).1),
    )
    | inr differ ↦ ground (arith, length-picked b batch rows s.2 new)
  ]

  -- Every key has a row.
  abbrev Present : List EvidenceRow → List ℕ → Type 0
  Present rows [] = Unit
  Present rows (i ∷ ids) = ((r : EvidenceRow) × (row_at i rows ≡ some r)) × Present rows ids

  Present-append :
      (rows : List EvidenceRow) (xs ys : List ℕ)
      → Present rows (xs ++ ys)
      → Present rows xs × Present rows ys
  Present-append rows [] ys p = (tt, p)
  Present-append rows (x ∷ xs) ys p =
      let (left, right) = Present-append rows xs ys p.1 in ((p.0, left), right)

  picked-nil : (rows : List EvidenceRow) → length (picked [] rows) ≡ 0
  unfolding select
  picked-nil [] = refl
  picked-nil (r ∷ rows) = picked-nil rows

  picked_count :
      (batch : List ℕ) (rows : List EvidenceRow)
      → Sound event_digest rows
      → Unrepeated batch
      → Present rows batch
      → length (picked batch rows) ≡ length batch
  picked_count [] rows s u p = picked-nil rows
  picked_count (b ∷ batch) rows s u p =
      let (r, there) = p.0 in
      ground (arith, length-picked b batch rows s u.0, picked_count batch rows s u.1 p.1, there)

  -- The dict after all batches: each key of a batch at its event, and nothing else is new.
  gather_all_lem :
      (batches : List (List ℕ)) (rows : List EvidenceRow) (d : List (ℕ × Event))
      → Sound event_digest rows
      → Unrepeated (concat batches)
      → Present rows (concat batches)
      → ((j : ℕ) → contains (concat batches) j ≡ true → lookup j d ≡ none)
      → (length (gather_all batches rows d) ≡ length d + length (concat batches))
        × ((j : ℕ) (r : EvidenceRow)
            → row_at j rows ≡ some r
            → lookup j (gather_all batches rows d)
              ≡ (if contains (concat batches) j then some r.event else lookup j d))
  unfolding gather_all
  gather_all_lem [] rows d s u p clear = (omega arith, λ j r there. refl)
  gather_all_lem (batch ∷ batches) rows d s u p clear =
      let (left, right, apart) = Unrepeated-append batch (concat batches) u in
      let (here, later) = Present-append rows batch (concat batches) p in
      let d' : List (ℕ × Event) = gather batch rows d in
      let grown : length d' ≡ length d + length (picked batch rows) =
        length-gather batch rows d s (λ j r there within.
          clear j (ground (arith, contains-append batch (concat batches) j))) in
      let still : (j : ℕ) → contains (concat batches) j ≡ true → lookup j d' ≡ none = λ j within.
        elim (Bool-cases (contains batch j)) [
          | inl twice ↦ absurd (ground (arith, apart j twice))
          | inr once ↦ ground (
            arith,
            lookup-gather batch rows d j s,
            clear j (ground (arith, contains-append batch (concat batches) j)),
          )
        ] in
      let ih : (length (gather_all batches rows d') ≡ length d' + length (concat batches))
          × ((j : ℕ) (r : EvidenceRow)
              → row_at j rows ≡ some r
              → lookup j (gather_all batches rows d')
                ≡ (if contains (concat batches) j then some r.event else lookup j d')) =
        gather_all_lem batches rows d' s right later still in
      (
        omega (
          arith,
          grown,
          ih.0,
          picked_count batch rows s left here,
          length-append batch (concat batches),
        ),
        λ j r there. ground (
          arith,
          ih.1 j r there,
          lookup-gather batch rows d j s,
          contains-append batch (concat batches) j,
          there,
        ),
      )

  pick_lem :
      (ids : List ℕ) (events : List Event) (rows : List EvidenceRow) (session : String)
      (d : List (ℕ × Event))
      → Holds rows session ids events
      → ((j : ℕ) (r : EvidenceRow)
          → contains ids j ≡ true
          → row_at j rows ≡ some r
          → lookup j d ≡ some r.event)
      → pick ids d ≡ ok events
  unfolding pick
  pick_lem [] [] rows session d h at = refl
  pick_lem [] (e ∷ events) rows session d h at = absurd h
  pick_lem (i ∷ ids) [] rows session d h at = absurd h
  pick_lem (i ∷ ids) (e ∷ events) rows session d h at =
      let (r, there, same, _) = h.0 in
      let rest : pick ids d ≡ ok events =
        pick_lem ids events rows session d h.1 (λ j x within found. at j x (ground arith) found) in
      ground (arith, at i r (ground arith) there, same, rest)

  Holds-Present :
      (rows : List EvidenceRow) (session : String) (ids : List ℕ) (events : List Event)
      → Holds rows session ids events
      → Present rows ids
  Holds-Present rows session [] events h = tt
  Holds-Present rows session (i ∷ ids) [] h = absurd h
  Holds-Present rows session (i ∷ ids) (e ∷ events) h =
      ((h.0.0, h.0.1), Holds-Present rows session ids events h.1)

  -- In sound evidence, reading the rows of a list of events with different identities, in batches
  -- of 500, gives back the list, in its order.
  pub read_events-Holds :
      (rows : List EvidenceRow) (session : String) (ids : List ℕ) (events : List Event)
      → Sound event_digest rows
      → Distinct (map (λ (e : Event). e.event_id) events)
      → Holds rows session ids events
      → read_events ids rows ≡ ok events
  unfolding read_events lookup
  read_events-Holds rows session ids events s distinct h =
      let whole : concat (blocks batch_size ids) ≡ ids =
        concat-split (length ids) batch_size ids (omega arith) (omega arith) in
      let all : (length (gather_all (blocks batch_size ids) rows [])
            ≡ 0 + length (concat (blocks batch_size ids)))
          × ((j : ℕ) (r : EvidenceRow)
              → row_at j rows ≡ some r
              → lookup j (gather_all (blocks batch_size ids) rows [])
                ≡ (if contains (concat (blocks batch_size ids)) j then some r.event else none)) =
        gather_all_lem (blocks batch_size ids) rows [] s
          (subst Unrepeated (sym whole) (Holds-Unrepeated rows session ids events distinct h))
          (subst (Present rows) (sym whole) (Holds-Present rows session ids events h))
          (λ j within. refl) in
      let size : length (gather_all (blocks batch_size ids) rows []) == length ids ≡ true =
        ground (arith, all.0, ap length whole) in
      rw size (
        pick_lem ids events rows session (gather_all (blocks batch_size ids) rows []) h
          (λ j r within there. ground (arith, all.1 j r there, ap (λ l. contains l j) whole)))
