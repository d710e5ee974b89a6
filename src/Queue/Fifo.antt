-- ===== src/Queue/Fifo.antt =====
-- The queue as its clients see it: for each session the revisions that are outstanding, oldest
-- first, and the acknowledged revision.
use session_search.Base.{
  ℕ, ◌≡◌, refl, sym, ap, ◌∙◌, String, Bool, inl, inr, Option, none, some, List, [], ◌∷◌, ◌++◌,
  arith, map, append_assoc, ◌==◌, string_eq, Bool-cases, select, find, update, lookup, All,
  lookup-upsert, if◌then◌else◌,
}
use session_search.Queue.Table.{Raw, Payload, Row, UploadQueue, of_session, delete}
use session_search.Queue.Flush.{
  Remote, drop_copy, acknowledge, has_seq, postpone, postponed, flush_pending,
}
use session_search.Queue.Order.{
  Ascending, KeepsIdentity, Chosen, select-delete-Chosen, select-delete_other,
}
use session_search.Queue.Rounds.{pending-drop_copy, flush_pending_induction}

abbrev pub revisions : List Row → List String
revisions = map (λ (r : Row). r.revision)

unfoldable pub outstanding : String → UploadQueue → List String
outstanding s q = revisions (select (of_session s) q.pending)

abbrev pub acked : String → UploadQueue → Option String
acked s q = lookup s q.acknowledged

-- The last of `before ∷ done`.
abbrev pub newest : Option String → List String → Option String
newest before [] = before
newest before (v ∷ vs) = newest (some v) vs

newest-append :
    (before : Option String) (vs : List String) (v : String) → newest before (vs ++ v ∷ []) ≡ some v
newest-append before [] v = refl
newest-append before (w ∷ vs) v = newest-append (some w) vs v

-- From `q` to `q'` the revisions `done` of the session were acknowledged, in order.
abbrev pub Progress : String → UploadQueue → UploadQueue → Type 0
Progress s q q' =
    (done : List String) × (outstanding s q ≡ done ++ outstanding s q')
    × (acked s q' ≡ newest (acked s q) done)

pub revisions-update :
    (s : String) (p : Row → Bool) (f : Row → Row)
    → KeepsIdentity f
    → (rs : List Row)
    → revisions (select (of_session s) (update p f rs)) ≡ revisions (select (of_session s) rs)
unfolding update select
revisions-update s p f k [] = refl
revisions-update s p f k (r ∷ rs) = ground (arith, revisions-update s p f k rs, k r)

module _ (s : String) (c : Remote) (now : ℕ) where
  outstanding-drop_copy :
      (raw : Option Raw) (q : UploadQueue) → outstanding s (drop_copy c raw q) ≡ outstanding s q
  unfolding outstanding
  outstanding-drop_copy raw q = rw pending-drop_copy

  acked-drop_copy : (raw : Option Raw) (q : UploadQueue) → acked s (drop_copy c raw q) ≡ acked s q
  unfolding drop_copy
  acked-drop_copy none q = refl
  acked-drop_copy (some raw) q = ground arith

  outstanding-postpone :
      (row : Row) (status : Option ℕ) (q : UploadQueue)
      → outstanding s (postpone now row status q) ≡ outstanding s q
  unfolding outstanding postpone
  outstanding-postpone row status q =
      revisions-update s (has_seq row.seq) (postponed now row status) (λ r. (refl, refl, refl))
        q.pending

  acked-postpone :
      (row : Row) (status : Option ℕ) (q : UploadQueue)
      → acked s (postpone now row status q) ≡ acked s q
  unfolding postpone
  acked-postpone row status q = refl

  acked-acknowledge :
      (row : Row) (payload : Payload) (q : UploadQueue)
      → acked s (acknowledge row payload q)
        ≡ (if s == row.session_id then some row.revision else acked s q)
  unfolding acknowledge
  acked-acknowledge row payload q = lookup-upsert s row.session_id row.revision q.acknowledged

  outstanding-acknowledge :
      (row stored : Row) (q : UploadQueue)
      → Ascending q.pending
      → All (Chosen row) q.pending
      → find (has_seq row.seq) q.pending ≡ some stored
      → outstanding s q ≡ (
          if s == row.session_id
          then row.revision ∷ outstanding s (acknowledge row stored.payload q)
          else outstanding s (acknowledge row stored.payload q))
  unfolding outstanding acknowledge
  outstanding-acknowledge row stored q h k e = elim (Bool-cases (s == row.session_id)) [
    | inl own ↦
        let p : s ≡ row.session_id = ground arith in
        let first : (select (of_session row.session_id) q.pending
              ≡ stored ∷ select (of_session row.session_id) (delete row.seq q.pending))
            × (stored.session_id ≡ row.session_id)
            × (stored.revision ≡ row.revision) =
          select-delete-Chosen row stored q.pending h k e in
        rw own (
          rw p (
            ap revisions first.0
            ∙ ap
                (λ v. v ∷ revisions (select (of_session row.session_id) (delete row.seq q.pending)))
                first.2))
    | inr other ↦
        rw other (ap revisions (sym (select-delete_other s row q.pending k (ground arith))))
  ]

  Progress-acknowledge :
      (start : UploadQueue) (row stored : Row) (q : UploadQueue)
      → Ascending q.pending
      → All (Chosen row) q.pending
      → find (has_seq row.seq) q.pending ≡ some stored
      → Progress s start q
      → Progress s start (acknowledge row stored.payload q)
  Progress-acknowledge start row stored q h k e (done, split, ack) =
      elim (Bool-cases (s == row.session_id)) [
        | inl own ↦ (
          done ++ row.revision ∷ [],
          split
              ∙ ap (◌++◌ done) (rw own at (outstanding-acknowledge row stored q h k e))
              ∙ sym (append_assoc done (row.revision ∷ []) _),
          (rw own at (acked-acknowledge row stored.payload q))
              ∙ sym (newest-append (acked s start) done row.revision),
        )
        | inr other ↦ (
          done,
          split ∙ ap (◌++◌ done) (rw other at (outstanding-acknowledge row stored q h k e)),
          (rw other at (acked-acknowledge row stored.payload q)) ∙ ack,
        )
      ]

  -- From a table whose keys ascend, _flush acknowledges for each session some of its outstanding
  -- revisions, oldest first and with none left out, records the last of them as the acknowledged
  -- revision and keeps the others outstanding in their order, whatever the server answers.
  pub flush_pending-Progress :
      (limit : ℕ) (q : UploadQueue)
      → Ascending q.pending
      → Ascending (flush_pending c limit now q).queue.pending
        × Progress s q (flush_pending c limit now q).queue
  flush_pending-Progress limit q h =
      flush_pending_induction c now (Progress s q) (Progress-acknowledge q)
        (λ raw p (done, split, ack). (
          done,
          split ∙ ap (◌++◌ done) (sym (outstanding-drop_copy raw p)),
          acked-drop_copy raw p ∙ ack,
        ))
        (λ row status p (done, split, ack). (
          done,
          split ∙ ap (◌++◌ done) (sym (outstanding-postpone row status p)),
          acked-postpone row status p ∙ ack,
        ))
        limit q h ([], refl, refl)
