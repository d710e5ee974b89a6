-- ===== src/Queue/Delivery.antt =====
-- Limits on what one flush does, and the safety of the staged raw files.
use session_search.Base.{
  ℕ, suc, ◌+◌, ◌≤◌, ◌≡◌, refl, ap, String, Bool, true, false, inl, inr, Option, none, some, List,
  [], ◌∷◌, arith, length, length-take, ◌==◌, string_eq, string_dec, nat_eq, contains, Bool-cases,
  Option-cases, exists, select, find, update,
}
use session_search.Queue.Table.{Raw, Row, UploadQueue, delete}
use session_search.Queue.Flush.{
  Remote, eligible, selected, send_row, has_digest, unlink, drop_copy, acknowledge, has_seq,
  postpone, postponed, is_outage, Flushed, flush_rows, flush_pending,
}
use session_search.Queue.Order.{Ascending}
use session_search.Queue.Rounds.{flush_pending_induction, Reply-cases}

-- The raw file `d` is safe between two queues: if a row still needs it and it was staged as a file,
-- it is staged still.
abbrev pub IsSafe : String → UploadQueue → UploadQueue → Type 0
IsSafe d q q' =
    (exists (has_digest d) q'.pending ≡ true → exists (has_digest d) q.pending ≡ true)
    × (exists (has_digest d) q'.pending ≡ true
        → contains q.files d ≡ true
        → contains q'.files d ≡ true)

exists-delete :
    (p : Row → Bool) (n : ℕ) (rs : List Row) → exists p (delete n rs) ≡ true → exists p rs ≡ true
unfolding exists delete
exists-delete p n [] h = h
exists-delete p n (r ∷ rs) h = ground (arith, exists-delete p n rs)

exists-update :
    (p t : Row → Bool) (f : Row → Row)
    → ((r : Row) → p (f r) ≡ p r)
    → (rs : List Row) → exists p (update t f rs) ≡ exists p rs
unfolding exists update
exists-update p t f k [] = refl
exists-update p t f k (r ∷ rs) = ground (arith, exists-update p t f k rs, k r)

contains-unlink :
    (d e : String) (files : List String)
    → d == e ≡ false
    → contains files d ≡ true
    → contains (unlink e files) d ≡ true
unfolding unlink select
contains-unlink d e [] n h = h
contains-unlink d e (f ∷ files) n h = ground (arith, contains-unlink d e files n)

differs :
    (d e : String) (rs : List Row)
    → exists (has_digest d) rs ≡ true
    → exists (has_digest e) rs ≡ false
    → d == e ≡ false
differs d e rs h k = elim (string_dec d e) [
  | yes p ↦ absurd (ground (arith, ap (λ x. exists (has_digest x) rs) p))
  | no n ↦ ground arith
]

module _ (d : String) (c : Remote) (now : ℕ) where
  IsSafe-acknowledge :
      (start : UploadQueue) (row stored : Row) (q : UploadQueue)
      → IsSafe d start q
      → IsSafe d start (acknowledge row stored.payload q)
  unfolding acknowledge
  IsSafe-acknowledge start row stored q (old, kept) = (
    λ e. old (exists-delete (has_digest d) row.seq q.pending e),
    λ e. kept (exists-delete (has_digest d) row.seq q.pending e),
  )

  IsSafe-drop_copy :
      (start : UploadQueue) (raw : Option Raw) (q : UploadQueue)
      → IsSafe d start q
      → IsSafe d start (drop_copy c raw q)
  unfolding drop_copy
  IsSafe-drop_copy start none q safe = safe
  IsSafe-drop_copy start (some raw) q (old, kept) =
      elim (Bool-cases (exists (has_digest raw.digest) q.pending)) [
        | inl needed ↦ rw needed (old, kept)
        | inr unused ↦ elim (Bool-cases (c.can_unlink raw.digest)) [
          | inr stays ↦ rw (unused, stays) (old, kept)
          | inl goes ↦
              rw (unused, goes)
                (
                  old,
                  λ e f.
                      contains-unlink d raw.digest q.files (differs d raw.digest q.pending e unused)
                        (kept e f),
                )
        ]
      ]

  IsSafe-postpone :
      (start : UploadQueue) (row : Row) (status : Option ℕ) (q : UploadQueue)
      → IsSafe d start q
      → IsSafe d start (postpone now row status q)
  unfolding postpone
  IsSafe-postpone start row status q safe =
      rw
        (exists-update (has_digest d) (has_seq row.seq) (postponed now row status) (λ r. refl)
          q.pending)
        safe

  -- From a table whose keys ascend, _flush deletes no staged raw file that a row left in the table
  -- needs.
  pub flush_pending-IsSafe :
      (limit : ℕ) (q : UploadQueue)
      → Ascending q.pending
      → IsSafe d q (flush_pending c limit now q).queue
  flush_pending-IsSafe limit q h =
      (flush_pending_induction c now (IsSafe d q)
        (λ row stored p a k e. IsSafe-acknowledge q row stored p) (IsSafe-drop_copy q)
        (IsSafe-postpone q) limit q h (λ e. e, λ e f. f)).1

-- The rounds of a flush: at most one for each row selected, and no more than the limit.
flush_rows_counts :
    (c : Remote) (now : ℕ) (rows : List Row) (s : Flushed)
    → (flush_rows c now rows s).sent + (flush_rows c now rows s).failed
      ≤ s.sent + s.failed + length rows
unfolding flush_rows
flush_rows_counts c now [] s = omega arith
flush_rows_counts c now (row ∷ rows) s =
    elim (Option-cases (find (has_seq row.seq) s.queue.pending)) [
      | inl e ↦ rw (e, flush_rows) (omega arith)
      | inr (stored, e) ↦ elim (Reply-cases (send_row c row stored.payload)) [
        | inl a ↦
            rw (e, a, flush_rows)
              (omega (
                arith,
                flush_rows_counts c now rows (record s {
                  queue = drop_copy c stored.payload.raw (acknowledge row stored.payload s.queue);
                  sent = suc s.sent;
                }),
              ))
        | inr (inl a) ↦ rw (e, a, flush_rows) (omega arith)
        | inr (inr (status, a)) ↦ elim (Bool-cases (is_outage status)) [
          | inl o ↦ rw (e, a, o, flush_rows) (omega arith)
          | inr o ↦
              rw (e, a, o, flush_rows)
                (omega (
                  arith,
                  flush_rows_counts c now rows
                      (record s { queue = postpone now row status s.queue; failed = suc s.failed }),
                ))
        ]
      ]
    ]

-- The rows that _flush counts as sent or failed are together at most its limit.
pub flush_pending_counts :
    (c : Remote) (limit now : ℕ) (q : UploadQueue)
    → (flush_pending c limit now q).sent + (flush_pending c limit now q).failed ≤ limit
unfolding flush_pending selected
flush_pending_counts c limit now q = omega (
  arith,
  flush_rows_counts c now (selected now limit q)
      (record { queue = q; sent = 0; failed = 0; crashed = false }),
  length-take limit (select (eligible now q.pending) q.pending),
)
