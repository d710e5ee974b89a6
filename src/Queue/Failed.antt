-- ===== src/Queue/Failed.antt =====
-- What a flush makes of the rows whose upload fails, and that it counts them.
use session_search.Base.{
  ℕ, suc, ◌<◌, ◌≡◌, refl, sym, ap, subst, ◌∙◌, true, inl, inr, Option, some, List, [], ◌∷◌, arith,
  nat_eq, string_eq, length, Bool-cases, Option-cases, All, All-mono, All-take, select_pass, select,
  find,
}
use session_search.Queue.Table.{Raw, Row, UploadQueue}
use session_search.Queue.Flush.{
  Remote, eligible, selected, send_row, drop_copy, acknowledge, has_seq, postpone, postponed,
  is_outage, Flushed, flush_rows, flush_pending,
}
use session_search.Queue.Order.{Ascending, All-delete, delete-Ascending, update-Ascending}
use session_search.Queue.Retry.{IsRetried, Fate, is_retried, untried, tried, postponed-IsRetried}
use session_search.Queue.Rows.{
  find_self, select-Ascending, take-Ascending, All-update_if, select-delete, select-update,
  select_none,
}
use session_search.Queue.Rounds.{Reply-cases, pending-drop_copy}

module _ (now : ℕ) (start : List Row) where
  -- A row of the table in the middle of a flush, with the rows that are still to be sent.
  Midway : List Row → Row → Type 0
  Midway rows x = Fate now start x × All (λ row. x.seq ≡ row.seq → x ≡ row) rows

  -- A row to be sent, as it was selected.
  Selected : Row → Type 0
  Selected row = (find (has_seq row.seq) start ≡ some row) × (eligible now start row ≡ true)

  postpone-Midway :
      (row : Row) (rows : List Row) (status : Option ℕ) (q : UploadQueue)
      → Selected row
      → All (λ o. row.seq < o.seq) rows
      → All (Midway (row ∷ rows)) q.pending
      → All (Midway rows) (postpone now row status q).pending
  unfolding postpone Midway Selected
  postpone-Midway row rows status q (found, may) later h =
      All-update_if (Midway (row ∷ rows)) (Midway rows) (has_seq row.seq) (postponed now row status)
        (λ x hit m.
          let own : x.seq ≡ row.seq = ground arith in
          let e : x ≡ row = m.1.0 own in
          (
            (
              row,
              ap (λ y. find (has_seq y.seq) start) e ∙ found,
              inr (
                  subst (λ y. IsRetried now row (postponed now row status y)) (sym e)
                    (postponed-IsRetried now start row status may)),
            ),
            All-mono (λ o l s. absurd (omega (arith, own, s))) rows later,
          ))
        (λ x m. (m.0, m.1.1)) q.pending h

  -- What holds of the state in the middle of a flush, and at its end.
  Counted : Flushed → Type 0
  Counted s = s.failed ≡ length (select (is_retried start) s.queue.pending)

  Ended : Flushed → Type 0
  Ended s = All (Fate now start) s.queue.pending × Counted s

  postpone-Counted :
      (row stored : Row) (rows : List Row) (status : Option ℕ) (s : Flushed)
      → Selected row
      → Ascending s.queue.pending
      → find (has_seq row.seq) s.queue.pending ≡ some stored
      → All (Midway (row ∷ rows)) s.queue.pending
      → Counted s
      → Counted (record s { queue = postpone now row status s.queue; failed = suc s.failed })
  unfolding postpone Midway Selected Counted
  postpone-Counted row stored rows status s (found, may) a e h k = omega (
    arith,
    k,
    select-update (is_retried start) (postponed now row status) row.seq stored s.queue.pending a e (
        All-mono
          (λ x m own.
            (untried start row x found (m.1.0 own), tried now status start row x found (m.1.0 own)))
          s.queue.pending h),
  )

  acknowledge-Counted :
      (row stored : Row) (rows : List Row) (s : Flushed) (raw : Option Raw)
      → Selected row
      → All (Midway (row ∷ rows)) s.queue.pending
      → Counted s
      → (c : Remote)
      → Counted (record s {
        queue = drop_copy c raw (acknowledge row stored.payload s.queue);
        sent = suc s.sent;
      })
  unfolding acknowledge Midway Selected Counted
  acknowledge-Counted row stored rows s raw (found, may) h k c = rw pending-drop_copy (
      k
      ∙ sym (
          select-delete (is_retried start) row.seq s.queue.pending
            (All-mono (λ x m own. untried start row x found (m.1.0 own)) s.queue.pending h)))

  flush_rows-Ended :
      (c : Remote) (rows : List Row) (s : Flushed)
      → Ascending rows
      → All Selected rows
      → Ascending s.queue.pending
      → All (Midway rows) s.queue.pending
      → Counted s
      → Ended (flush_rows c now rows s)
  unfolding flush_rows Midway acknowledge postpone Ended Counted
  flush_rows-Ended c [] s a k o h n = (All-mono (λ x m. m.0) s.queue.pending h, n)
  flush_rows-Ended c (row ∷ rows) s a k o h n =
      let left : All (Fate now start) s.queue.pending = All-mono (λ x m. m.0) s.queue.pending h in
      elim (Option-cases (find (has_seq row.seq) s.queue.pending)) [
        | inl e ↦ rw (e, flush_rows, Ended) (left, n)
        | inr (stored, e) ↦ elim (Reply-cases (send_row c row stored.payload)) [
          | inl sent ↦
              let q : UploadQueue =
                drop_copy c stored.payload.raw (acknowledge row stored.payload s.queue) in
              rw (e, sent, flush_rows)
                (flush_rows-Ended c rows (record s { queue = q; sent = suc s.sent }) a.1 k.1
                  (rw pending-drop_copy (delete-Ascending row.seq s.queue.pending o))
                  (rw pending-drop_copy (
                    All-delete (Midway rows) row.seq s.queue.pending
                      (All-mono (λ x m. (m.0, m.1.1)) s.queue.pending h)))
                  (acknowledge-Counted row stored rows s stored.payload.raw k.0 h n c))
          | inr (inl crashed) ↦ rw (e, crashed, flush_rows, Ended) (left, n)
          | inr (inr (status, failed)) ↦
              let next : All (Midway rows) (postpone now row status s.queue).pending =
                postpone-Midway row rows status s.queue k.0 a.0 h in
              let count : Counted
                  (record s { queue = postpone now row status s.queue; failed = suc s.failed }) =
                postpone-Counted row stored rows status s k.0 o e h n in
              elim (Bool-cases (is_outage status)) [
                | inl out ↦
                    rw (e, failed, out, flush_rows, Ended)
                      (All-mono (λ x m. m.0) (postpone now row status s.queue).pending next, count)
                | inr going ↦
                    rw (e, failed, going, flush_rows)
                      (flush_rows-Ended c rows
                        (record s {
                          queue = postpone now row status s.queue;
                          failed = suc s.failed;
                        })
                        a.1 k.1
                        (update-Ascending (has_seq row.seq) (postponed now row status)
                          (λ r. (refl, refl, refl)) s.queue.pending o)
                        next count)
              ]
        ]
      ]

selected-Selected :
    (now limit : ℕ) (q : UploadQueue)
    → Ascending q.pending
    → Ascending (selected now limit q) × All (Selected now q.pending) (selected now limit q)
unfolding selected Selected
selected-Selected now limit q h = (
  take-Ascending limit (select (eligible now q.pending) q.pending)
      (select-Ascending (eligible now q.pending) q.pending h),
  All-take (Selected now q.pending) limit (select (eligible now q.pending) q.pending) (
      select_pass (λ row. find (has_seq row.seq) q.pending ≡ some row) (eligible now q.pending)
        q.pending (find_self q.pending h)),
)

-- From a table whose keys ascend, a row that _flush leaves has a row of its key before, and is that
-- row unchanged, or that row was pending and due and has one attempt more, maybe another state, and
-- its next attempt 2 ^ (attempts + 1) seconds later for fewer than eight earlier attempts and 300
-- seconds later from then on; the rows left with more attempts are as many as _flush counts as
-- failed.
pub flush_pending-Fate :
    (c : Remote) (limit now : ℕ) (q : UploadQueue)
    → Ascending q.pending
    → All (Fate now q.pending) (flush_pending c limit now q).queue.pending
      × ((flush_pending c limit now q).failed
          ≡ length (select (is_retried q.pending) (flush_pending c limit now q).queue.pending))
unfolding flush_pending Midway Selected Ended Counted
flush_pending-Fate c limit now q h =
    let (ascending, fine) = selected-Selected now limit q h in
    flush_rows-Ended now q.pending c (selected now limit q) _ ascending fine h
      (All-mono
        (λ x found. (
          (x, found, inl refl),
          All-mono
              (λ row f same.
                let t : some x ≡ some row =
                  sym found ∙ (ap (λ n. find (has_seq n) q.pending) same ∙ f.0) in
                ground arith)
              (selected now limit q) fine,
        ))
        q.pending (find_self q.pending h))
      (sym (
        select_none (is_retried q.pending) q.pending (
          All-mono (λ x found. untried q.pending x x found refl) q.pending
            (find_self q.pending h))))
