-- ===== src/Queue/Linked.antt =====
-- The chain of expected revisions, by which the server compares and swaps heads.
use session_search.Base.{
  ℕ, ◌≡◌, refl, sym, ap, subst, ◌∙◌, String, Bool, true, inl, inr, Option, none, some, List, [],
  ◌∷◌, ◌++◌, arith, append-nil, All, ◌==◌, string_eq, nat_eq, Bool-cases, exists, select,
  select-append, find, update, lookup, lookup-upsert, if◌then◌else◌,
}
use session_search.Base.Result.{ok}
use session_search.Records.{SessionRevision}
use session_search.Queue.Table.{
  Raw, Row, UploadQueue, of_session, last_revision, has_request, insert_or_ignore, delete,
}
use session_search.Queue.Flush.{
  Remote, drop_copy, acknowledge, has_seq, postpone, postponed, flush_pending,
}
use session_search.Queue.Order.{Ascending, Chosen, select-delete-Chosen, select-delete_other}
use session_search.Queue.Rounds.{flush_pending_induction}
use session_search.Queue.{Receipt, ingest, record_capture, new_row, previous_revision}

-- `k` is what the next row is known to expect, if anything is.
abbrev pub Expects : Option (Option String) → Row → Type 0
Expects none r = Unit
Expects (some v) r = r.payload.expected_revision ≡ v

-- Each row of a session expects the revision of the row before it, and the first expects `k`.
abbrev pub Chain : Option (Option String) → List Row → Type 0
Chain k [] = Unit
Chain k (r ∷ rs) = Expects k r × Chain (some (some r.revision)) rs

-- The outstanding rows of a session form a chain from the acknowledged revision.
pub record IsChained (s : String) (q : UploadQueue) : Type 0 where
  pub chain : Chain (some (lookup s q.acknowledged)) (select (of_session s) q.pending)

-- A change of rows that keeps what they expect too.
abbrev KeepsLinks : (Row → Row) → Type 0
KeepsLinks f =
    (r : Row)
    → ((f r).session_id ≡ r.session_id)
      × ((f r).revision ≡ r.revision)
      × ((f r).payload.expected_revision ≡ r.payload.expected_revision)

changed :
    (p : Row → Bool) (f : Row → Row)
    → KeepsLinks f
    → (r : Row)
    → ((if p r then f r else r).session_id ≡ r.session_id)
      × ((if p r then f r else r).revision ≡ r.revision)
      × ((if p r then f r else r).payload.expected_revision ≡ r.payload.expected_revision)
changed p f keeps r = ground (arith, keeps r)

Expects-kept :
    (k : Option (Option String)) (r o : Row)
    → o.payload.expected_revision ≡ r.payload.expected_revision
    → Expects k r
    → Expects k o
Expects-kept none r o e h = tt
Expects-kept (some v) r o e h = e ∙ h

Chain-kept :
    (s : String) (p : Row → Bool) (f : Row → Row)
    → KeepsLinks f
    → (k : Option (Option String)) (r : Row) (rs : List Row) → of_session s r ≡ true
    → Expects k r
    → Chain (some (some r.revision)) rs
    → Chain k (if of_session s (if p r then f r else r) then (if p r then f r else r) ∷ rs else rs)
Chain-kept s p f keeps k r rs own e h =
    let g : Row = if p r then f r else r in
    rw (ap (λ x. x == s) (changed p f keeps r).0 ∙ own) (
      Expects-kept k r g (changed p f keeps r).2 e,
      subst (λ v. Chain (some (some v)) rs) (sym (changed p f keeps r).1) h,
    )

Chain-select-update :
    (s : String) (p : Row → Bool) (f : Row → Row)
    → KeepsLinks f
    → (k : Option (Option String)) (rs : List Row) → Chain k (select (of_session s) rs)
    → Chain k (select (of_session s) (update p f rs))
unfolding select update
Chain-select-update s p f keeps k [] h = tt
Chain-select-update s p f keeps k (r ∷ rs) h = elim (Bool-cases (of_session s r)) [
  | inl own ↦
      Chain-kept s p f keeps k r (select (of_session s) (update p f rs)) own (rw own at h).0
        (Chain-select-update s p f keeps (some (some r.revision)) rs (rw own at h).1)
  | inr other ↦
      rw (ap (λ x. x == s) (changed p f keeps r).0 ∙ other)
        (Chain-select-update s p f keeps k rs (rw other at h))
]

-- What the row after the rows `rs` of a session must expect.
abbrev end_of : Option (Option String) → List Row → Option (Option String)
end_of k [] = k
end_of k (r ∷ rs) = end_of (some (some r.revision)) rs

Chain-append :
    (k : Option (Option String)) (rs : List Row) (r : Row)
    → Chain k rs
    → Expects (end_of k rs) r
    → Chain k (rs ++ r ∷ [])
Chain-append k [] r h e = (e, tt)
Chain-append k (x ∷ rs) r h e = (h.0, Chain-append (some (some x.revision)) rs r h.1 e)

end_of-last_revision :
    (s : String) (v : Option String) (rs : List Row)
    → end_of (some v) (select (of_session s) rs)
      ≡ some (elim (last_revision s rs) [ some r ↦ some r | none ↦ v ])
unfolding select last_revision
end_of-last_revision s v [] = refl
end_of-last_revision s v (r ∷ rs) =
    ground (arith, end_of-last_revision s v rs, end_of-last_revision s (some r.revision) rs)

-- A row that expects the previous revision of its session fits behind the outstanding rows.
Expects-end :
    (s : String) (row : Row) (q : UploadQueue)
    → row.payload.expected_revision ≡ previous_revision q s
    → Expects (end_of (some (lookup s q.acknowledged)) (select (of_session s) q.pending)) row
unfolding previous_revision
Expects-end s row q e =
    subst (λ k. Expects k row) (sym (end_of-last_revision s (lookup s q.acknowledged) q.pending)) e

module _ (s : String) (c : Remote) (now : ℕ) where
  acknowledge-IsChained :
      (row stored : Row) (q : UploadQueue)
      → Ascending q.pending
      → All (Chosen row) q.pending
      → find (has_seq row.seq) q.pending ≡ some stored
      → IsChained s q
      → IsChained s (acknowledge row stored.payload q)
  unfolding acknowledge
  acknowledge-IsChained row stored q h k e v = elim (Bool-cases (s == row.session_id)) [
    | inl own ↦
        let p : s ≡ row.session_id = ground arith in
        let first : (select (of_session row.session_id) q.pending
              ≡ stored ∷ select (of_session row.session_id) (delete row.seq q.pending))
            × (stored.session_id ≡ row.session_id)
            × (stored.revision ≡ row.revision) =
          select-delete-Chosen row stored q.pending h k e in
        let whole : Chain (some (lookup s q.acknowledged))
            (stored ∷ select (of_session row.session_id) (delete row.seq q.pending)) =
          subst (Chain (some (lookup s q.acknowledged)))
            (ap (λ t. select (of_session t) q.pending) p ∙ first.0) v.chain in
        record {
          chain =
              rw (lookup-upsert, own)
                (subst
                  (λ t.
                    Chain (some (some row.revision))
                      (select (of_session t) (delete row.seq q.pending)))
                  (sym p)
                  (subst
                    (λ w.
                      Chain (some (some w))
                        (select (of_session row.session_id) (delete row.seq q.pending)))
                    first.2 whole.1));
        }
    | inr other ↦ record {
      chain =
          rw (lookup-upsert, other, select-delete_other s row q.pending k (ground arith)) v.chain;
    }
  ]

  drop_copy-IsChained :
      (raw : Option Raw) (q : UploadQueue) → IsChained s q → IsChained s (drop_copy c raw q)
  unfolding drop_copy
  drop_copy-IsChained none q v = v
  drop_copy-IsChained (some raw) q v = record {
    chain =
        subst
          (λ a.
            Chain (some (lookup s a)) (select (of_session s) (drop_copy c (some raw) q).pending))
          (ground arith)
          (subst (λ rows. Chain (some (lookup s q.acknowledged)) (select (of_session s) rows))
            (ground arith) v.chain);
  }

  postpone-IsChained :
      (row : Row) (status : Option ℕ) (q : UploadQueue)
      → IsChained s q
      → IsChained s (postpone now row status q)
  unfolding postpone
  postpone-IsChained row status q v = record {
    chain =
        Chain-select-update s (has_seq row.seq) (postponed now row status) (λ r. (refl, refl, refl))
          (some (lookup s q.acknowledged)) q.pending v.chain;
  }

  -- From a table whose keys ascend, _flush keeps the chain of a session: its first outstanding row
  -- expects the acknowledged revision and each other the revision of the row before it.
  pub flush_pending-IsChained :
      (limit : ℕ) (q : UploadQueue)
      → Ascending q.pending
      → IsChained s q
      → IsChained s (flush_pending c limit now q).queue
  flush_pending-IsChained limit q h v =
      (flush_pending_induction c now (IsChained s) acknowledge-IsChained drop_copy-IsChained
        postpone-IsChained limit q h v).1

module _ (revision_of : SessionRevision → String) (q : UploadQueue) (session : SessionRevision)
    (request_id : String) (checkpoint : Option (String × String)) (raw : Option Raw) where
  insert-Chain :
      (s : String)
      → Chain (some (lookup s q.acknowledged)) (select (of_session s) q.pending)
      → Chain (some (lookup s q.acknowledged)) (
          select
            (of_session s)
            (insert_or_ignore (new_row revision_of q session request_id raw) q.pending))
  unfolding insert_or_ignore select
  insert-Chain s h =
      let row : Row = new_row revision_of q session request_id raw in
      let k : Option (Option String) = some (lookup s q.acknowledged) in
      elim (Bool-cases (exists (has_request request_id) q.pending)) [
        | inl old ↦ rw old h
        | inr new ↦ elim (Bool-cases (session.session_id == s)) [
          | inl own ↦
              let same : session.session_id ≡ s = ground arith in
              rw (new, select-append (of_session s) q.pending (row ∷ []), own)
                (Chain-append k (select (of_session s) q.pending) row h
                  (Expects-end s row q (ap (previous_revision q) same)))
          | inr other ↦
              rw (new, select-append (of_session s) q.pending (row ∷ []), other, append-nil) h
        ]
      ]

  ingest-eq :
      (receipt : Receipt) (q' : UploadQueue)
      → ingest revision_of q session request_id checkpoint raw ≡ ok (receipt, q')
      → q' ≡ record_capture revision_of q session request_id checkpoint raw
  unfolding ingest
  ingest-eq receipt q' h = ground arith

  -- A successful ingest keeps the chain of every session.
  pub ingest-IsChained :
      (s : String) (receipt : Receipt) (q' : UploadQueue)
      → ingest revision_of q session request_id checkpoint raw ≡ ok (receipt, q')
      → IsChained s q
      → IsChained s q'
  unfolding record_capture
  ingest-IsChained s receipt q' h v =
      subst (IsChained s) (sym (ingest-eq receipt q' h)) (record { chain = insert-Chain s v.chain })
