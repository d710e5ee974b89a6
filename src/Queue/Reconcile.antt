-- ===== src/Queue/Reconcile.antt =====
-- `_bootstrap_imports` and `_reconcile_raw_prefixes` as wholes, whatever the server answers.
use session_search.Base.{
  ℕ, zero, suc, ◌≡◌, ◌⊎◌, refl, ◌==◌, string_eq, String, true, false, ◌&&◌, inl, inr, Option, none,
  some, List, [], ◌∷◌, arith, All, All-take, All-drop, Bool-cases, select, take, length,
}
use session_search.Queue.Table.{Row, UploadQueue, has_older}
use session_search.Queue.Flush.{Reply, answered, remote_error, raised}
use session_search.Queue.Order.{Ascending, Chosen}
use session_search.Queue.Rounds.{select-Chosen}
use session_search.Queue.Rebase.{Same, Reached, Reached-refl, Reached-rebase}
use session_search.Queue.Heads.{
  Head, batches, rebase, session_ids, Rebased, untouched, importable, bootstrap_row, bootstrap_rows,
  bootstrap_batches, bootstrap_imports, reconcilable, reconcile_known, reconcile_row,
  reconcile_rows, reconcile_batches, reconcile_raw_prefixes,
}

All-batches :
    (P : Row → Type 0) (fuel n : ℕ) (rows : List Row)
    → All P rows
    → All (All P) (batches fuel n rows)
unfolding batches
All-batches P zero n rows h = tt
All-batches P (suc fuel) n [] h = tt
All-batches P (suc fuel) n (r ∷ rows) h =
    (All-take P n (r ∷ rows) h, All-batches P fuel n _ (All-drop P n (r ∷ rows) h))

Reply-cases :
    {A : Type 0} (r : Reply A)
    → ((a : A) × (r ≡ answered a))
      ⊎ ((r ≡ raised) ⊎ ((status : Option ℕ) × (r ≡ remote_error status)))
Reply-cases (answered a) = inl (a, refl)
Reply-cases (remote_error status) = inr (inr (status, refl))
Reply-cases raised = inr (inl refl)

module _ (s : String) (start : UploadQueue) where
  abbrev IsFirst : Row → Type 0
  IsFirst row = All (Chosen row) start.pending

  bootstrap_row-Reached :
      (head : Option Head) (row : Row) (r : Rebased)
      → IsFirst row
      → Reached s start r.queue
      → Reached s start (bootstrap_row head row r).queue
  unfolding bootstrap_row
  bootstrap_row-Reached none row r c h = h
  bootstrap_row-Reached (some head) row r c h =
      elim (Bool-cases (head.source == "codex" && head.parser_version == "legacy-archive-v1")) [
        | inl e ↦ rw e (Reached-rebase s start r.queue row (some head.revision) c h)
        | inr e ↦ rw e h
      ]

  bootstrap_rows-Reached :
      (heads : String → Option Head) (rows : List Row) (r : Rebased)
      → All IsFirst rows
      → Reached s start r.queue
      → Reached s start (bootstrap_rows heads rows r).queue
  unfolding bootstrap_rows
  bootstrap_rows-Reached heads [] r c h = h
  bootstrap_rows-Reached heads (row ∷ rows) r c h =
      bootstrap_rows-Reached heads rows (bootstrap_row (heads row.session_id) row r) c.1
        (bootstrap_row-Reached (heads row.session_id) row r c.0 h)

  bootstrap_batches-Reached :
      (ask : List String → Reply (String → Option Head)) (rows : List (List Row)) (r : Rebased)
      → All (All IsFirst) rows
      → Reached s start r.queue
      → Reached s start (bootstrap_batches ask rows r).queue
  unfolding bootstrap_batches
  bootstrap_batches-Reached ask [] r c h = h
  bootstrap_batches-Reached ask (batch ∷ rest) r c h =
      elim (Reply-cases (ask (session_ids batch))) [
        | inl (heads, e) ↦
            rw (e, bootstrap_batches)
              (bootstrap_batches-Reached ask rest (bootstrap_rows heads batch r) c.1
                (bootstrap_rows-Reached heads batch r c.0 h))
        | inr (inl e) ↦ rw (e, bootstrap_batches) h
        | inr (inr (status, e)) ↦ rw (e, bootstrap_batches) h
      ]

  module _ (sha256 : List ℕ → String) (read_raw : String → Option (List ℕ)) where
    reconcile_known-queue :
        (head : Head) (row : Row) (r : Rebased)
        → ((reconcile_known sha256 read_raw head row r).queue ≡ r.queue)
          ⊎ ((reconcile_known sha256 read_raw head row r).queue
              ≡ rebase row.seq (some head.revision) r.queue)
    unfolding reconcile_known
    reconcile_known-queue head row r = ground arith

    reconcile_row-Reached :
        (head : Option Head) (row : Row) (r : Rebased)
        → IsFirst row
        → Reached s start r.queue
        → Reached s start (reconcile_row sha256 read_raw head row r).queue
    unfolding reconcile_row
    reconcile_row-Reached none row r c h = Reached-rebase s start r.queue row none c h
    reconcile_row-Reached (some head) row r c h = elim (reconcile_known-queue head row r) [
      | inl e ↦ rw e h
      | inr e ↦ rw e (Reached-rebase s start r.queue row (some head.revision) c h)
    ]

    reconcile_rows-Reached :
        (heads : String → Option Head) (rows : List Row) (r : Rebased)
        → All IsFirst rows
        → Reached s start r.queue
        → Reached s start (reconcile_rows sha256 read_raw heads rows r).queue
    unfolding reconcile_rows
    reconcile_rows-Reached heads [] r c h = h
    reconcile_rows-Reached heads (row ∷ rows) r c h =
        reconcile_rows-Reached heads rows
          (reconcile_row sha256 read_raw (heads row.session_id) row r) c.1
          (reconcile_row-Reached (heads row.session_id) row r c.0 h)

    reconcile_batches-Reached :
        (ask : List String → Reply (String → Option Head)) (rows : List (List Row)) (r : Rebased)
        → All (All IsFirst) rows
        → Reached s start r.queue
        → Reached s start (reconcile_batches sha256 read_raw ask rows r).queue
    unfolding reconcile_batches
    reconcile_batches-Reached ask [] r c h = h
    reconcile_batches-Reached ask (batch ∷ rest) r c h =
        elim (Reply-cases (ask (session_ids batch))) [
          | inl (heads, e) ↦
              rw (e, reconcile_batches)
                (reconcile_batches-Reached ask rest (reconcile_rows sha256 read_raw heads batch r)
                  c.1 (reconcile_rows-Reached heads batch r c.0 h))
          | inr (inl e) ↦ rw (e, reconcile_batches) h
          | inr (inr (status, e)) ↦ rw (e, reconcile_batches) h
        ]

module _ (s : String) (limit : ℕ) (q : UploadQueue) (h : Ascending q.pending)
    (ask : List String → Reply (String → Option Head)) where
  importable-oldest :
      (row : Row) → importable q.pending row ≡ true → has_older row q.pending ≡ false
  unfolding importable
  importable-oldest row e = ground arith

  reconcilable-oldest :
      (row : Row) → reconcilable q.pending row ≡ true → has_older row q.pending ≡ false
  unfolding reconcilable
  reconcilable-oldest row e = ground arith

  -- From a table whose keys ascend, _bootstrap_imports leaves the order, the outstanding and the
  -- acknowledged revisions and the staged files as they are, and each row behind another of its
  -- session still expects the revision of the row before it, if it did.
  pub bootstrap_imports-Same : Same s q (bootstrap_imports ask limit q).queue
  unfolding bootstrap_imports
  bootstrap_imports-Same =
      let rows : List Row = take limit (select (importable q.pending) q.pending) in
      (bootstrap_batches-Reached s q ask (batches (length rows) 100 rows) (untouched q)
        (All-batches (λ row. All (Chosen row) q.pending) (length rows) 100 rows
          (select-Chosen (importable q.pending) limit q.pending importable-oldest h))
        (Reached-refl s q h)).same

  -- From a table whose keys ascend, _reconcile_raw_prefixes leaves the order, the outstanding and
  -- the acknowledged revisions and the staged files as they are, and each row behind another of its
  -- session still expects the revision of the row before it, if it did.
  pub reconcile_raw_prefixes-Same :
      (sha256 : List ℕ → String) (read_raw : String → Option (List ℕ))
      → Same s q (reconcile_raw_prefixes sha256 read_raw ask limit q).queue
  unfolding reconcile_raw_prefixes
  reconcile_raw_prefixes-Same sha256 read_raw =
      let rows : List Row = take limit (select (reconcilable q.pending) q.pending) in
      (reconcile_batches-Reached s q sha256 read_raw ask (batches (length rows) 10 rows)
        (untouched q)
        (All-batches (λ row. All (Chosen row) q.pending) (length rows) 10 rows
          (select-Chosen (reconcilable q.pending) limit q.pending reconcilable-oldest h))
        (Reached-refl s q h)).same
