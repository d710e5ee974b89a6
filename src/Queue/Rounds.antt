-- ===== src/Queue/Rounds.antt =====
-- Induction over the rows of a flush: the rows that `selected` gives are the oldest of their
-- sessions, and stay so until their turn comes.
use session_search.Base.{
  ℕ, suc, ◌≤◌, ◌<◌, ◌≡◌, ◌⊎◌, refl, Bool, true, false, inl, inr, Option, none, some, List, [], ◌∷◌,
  arith, string_eq, nat_eq, Bool-cases, Option-cases, All, All-mono, All-pair, All-take,
  select_pass, exists, select, find, update, take,
}
use session_search.Queue.Table.{Raw, Payload, Row, UploadQueue, has_older}
use session_search.Queue.Flush.{
  Reply, answered, remote_error, raised, Remote, eligible, selected, send_row, drop_copy,
  acknowledge, is_outage, has_seq, postpone, postponed, Flushed, flush_rows, flush_pending,
}
use session_search.Queue.Order.{
  Ascending, KeepsIdentity, All-delete, All-update, delete-Ascending, update-Ascending, Chosen,
}

pub update-Chosen :
    (p : Row → Bool) (f : Row → Row)
    → KeepsIdentity f
    → (row : Row) (rs : List Row) → All (Chosen row) rs
    → All (Chosen row) (update p f rs)
update-Chosen p f k row rs h =
    All-update (Chosen row) p f (λ o c. ground (arith, k o, c.0, c.1)) rs h

abbrev SameSeq : Row → Row → Type 0
SameSeq row o = o.seq ≡ row.seq → (o.session_id ≡ row.session_id) × (o.revision ≡ row.revision)

Ascending-SameSeq : (rs : List Row) → Ascending rs → All (λ row. All (SameSeq row) rs) rs
Ascending-SameSeq [] h = tt
Ascending-SameSeq (r ∷ rs) h = (
  ((λ e. (refl, refl)), All-mono (λ o l e. absurd (omega arith)) rs h.0),
  go rs h.0 (Ascending-SameSeq rs h.1),
)
  where
    go :
        (xs : List Row)
        → All (λ o. r.seq < o.seq) xs
        → All (λ row. All (SameSeq row) rs) xs
        → All (λ row. All (SameSeq row) (r ∷ rs)) xs
    go [] a b = tt
    go (x ∷ xs) a b = (((λ e. absurd (omega arith)), b.0), go xs a.1 b.1)

has_older-All :
    (row : Row) (rs : List Row)
    → has_older row rs ≡ false
    → All (λ o. o.session_id ≡ row.session_id → row.seq ≤ o.seq) rs
unfolding has_older exists
has_older-All row [] h = tt
has_older-All row (o ∷ rs) h = ((λ e. ground arith), has_older-All row rs (ground arith))

-- The rows that pass a test which excludes rows with an older one are the oldest of their sessions.
pub select-Chosen :
    (p : Row → Bool) (limit : ℕ) (rs : List Row)
    → ((row : Row) → p row ≡ true → has_older row rs ≡ false)
    → Ascending rs
    → All (λ row. All (Chosen row) rs) (take limit (select p rs))
select-Chosen p limit rs oldest h =
    All-take (λ row. All (Chosen row) rs) limit (select p rs)
      (All-mono (λ row c. All-pair (SameSeq row) _ rs c.0 (has_older-All row rs (oldest row c.1)))
        (select p rs) (select_pass (λ row. All (SameSeq row) rs) p rs (Ascending-SameSeq rs h)))

eligible-oldest :
    (now : ℕ) (rs : List Row) (row : Row) → eligible now rs row ≡ true → has_older row rs ≡ false
unfolding eligible
eligible-oldest now rs row h = ground arith

pub selected-Chosen :
    (now limit : ℕ) (q : UploadQueue)
    → Ascending q.pending
    → All (λ row. All (Chosen row) q.pending) (selected now limit q)
unfolding selected
selected-Chosen now limit q h =
    select-Chosen (eligible now q.pending) limit q.pending (eligible-oldest now q.pending) h

pub pending-drop_copy :
    (c : Remote) (raw : Option Raw) (q : UploadQueue) → (drop_copy c raw q).pending ≡ q.pending
unfolding drop_copy
pending-drop_copy c none q = refl
pending-drop_copy c (some raw) q = ground arith

pub Reply-cases :
    (r : Reply (Unit {0}))
    → (r ≡ answered tt) ⊎ ((r ≡ raised) ⊎ ((status : Option ℕ) × (r ≡ remote_error status)))
Reply-cases (answered tt) = inl refl
Reply-cases (remote_error status) = inr (inr (status, refl))
Reply-cases raised = inr (inl refl)

-- What holds of a queue and is kept by each step of a flush holds after it.
module _ {ℓ} (c : Remote) (now : ℕ) (P : UploadQueue → Type ℓ)
    (sent : (row stored : Row) (q : UploadQueue)
      → Ascending q.pending
      → All (Chosen row) q.pending
      → find (has_seq row.seq) q.pending ≡ some stored
      → P q
      → P (acknowledge row stored.payload q))
    (copied : (raw : Option Raw) (q : UploadQueue) → P q → P (drop_copy c raw q))
    (failed : (row : Row) (status : Option ℕ) (q : UploadQueue)
      → P q
      → P (postpone now row status q)) where
  postpone-Ascending :
      (row : Row) (status : Option ℕ) (q : UploadQueue)
      → Ascending q.pending
      → Ascending (postpone now row status q).pending
  unfolding postpone
  postpone-Ascending row status q h =
      update-Ascending (has_seq row.seq) (postponed now row status) (λ r. (refl, refl, refl))
        q.pending h

  postpone-Chosen :
      (row other : Row) (status : Option ℕ) (q : UploadQueue)
      → All (Chosen other) q.pending
      → All (Chosen other) (postpone now row status q).pending
  unfolding postpone
  postpone-Chosen row other status q h =
      update-Chosen (has_seq row.seq) (postponed now row status) (λ r. (refl, refl, refl)) other
        q.pending h

  acknowledge-Ascending :
      (row : Row) (payload : Payload) (raw : Option Raw) (q : UploadQueue)
      → Ascending q.pending
      → Ascending (drop_copy c raw (acknowledge row payload q)).pending
  unfolding acknowledge
  acknowledge-Ascending row payload raw q h =
      rw pending-drop_copy (delete-Ascending row.seq q.pending h)

  acknowledge-Chosen :
      (row other : Row) (payload : Payload) (raw : Option Raw) (q : UploadQueue)
      → All (Chosen other) q.pending
      → All (Chosen other) (drop_copy c raw (acknowledge row payload q)).pending
  unfolding acknowledge
  acknowledge-Chosen row other payload raw q h =
      rw pending-drop_copy (All-delete (Chosen other) row.seq q.pending h)

  pub flush_rows_induction :
      (rows : List Row) (s : Flushed)
      → Ascending s.queue.pending
      → All (λ row. All (Chosen row) s.queue.pending) rows
      → P s.queue
      → Ascending (flush_rows c now rows s).queue.pending × P (flush_rows c now rows s).queue
  unfolding flush_rows
  flush_rows_induction [] s h k p = (h, p)
  flush_rows_induction (row ∷ rows) s h k p =
      elim (Option-cases (find (has_seq row.seq) s.queue.pending)) [
        | inl e ↦ rw (e, flush_rows, Ascending) (h, p)
        | inr (stored, e) ↦ elim (Reply-cases (send_row c row stored.payload)) [
          | inl a ↦
              rw (e, a, flush_rows, Ascending)
                (flush_rows_induction rows
                  (record s {
                    queue = drop_copy c stored.payload.raw (acknowledge row stored.payload s.queue);
                    sent = suc s.sent;
                  })
                  (acknowledge-Ascending row stored.payload stored.payload.raw s.queue h)
                  (All-mono
                    (λ other.
                      acknowledge-Chosen row other stored.payload stored.payload.raw s.queue)
                    rows k.1)
                  (copied stored.payload.raw _ (sent row stored s.queue h k.0 e p)))
          | inr (inl a) ↦ rw (e, a, flush_rows, Ascending) (h, p)
          | inr (inr (status, a)) ↦ elim (Bool-cases (is_outage status)) [
            | inl o ↦
                rw (e, a, o, flush_rows, Ascending)
                  (postpone-Ascending row status s.queue h, failed row status s.queue p)
            | inr o ↦
                rw (e, a, o, flush_rows, Ascending)
                  (flush_rows_induction rows
                    (record s { queue = postpone now row status s.queue; failed = suc s.failed })
                    (postpone-Ascending row status s.queue h)
                    (All-mono (λ other. postpone-Chosen row other status s.queue) rows k.1)
                    (failed row status s.queue p))
          ]
        ]
      ]

  -- The same for a whole flush.
  pub flush_pending_induction :
      (limit : ℕ) (q : UploadQueue)
      → Ascending q.pending
      → P q
      → Ascending (flush_pending c limit now q).queue.pending
        × P (flush_pending c limit now q).queue
  unfolding flush_pending
  flush_pending_induction limit q h p =
      flush_rows_induction (selected now limit q) _ h (selected-Chosen now limit q h) p
