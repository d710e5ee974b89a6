-- ===== src/Queue/Rebase.antt =====
-- `_bootstrap_imports` and `_reconcile_raw_prefixes` change only what the first outstanding row of
-- a session expects.
use session_search.Base.{
  ℕ, ◌<◌, ◌≡◌, ◌≢◌, refl, sym, subst, ◌∙◌, String, true, inl, inr, Option, none, some, List, [],
  ◌∷◌, arith, All, All-mono, string_eq, nat_eq, string_dec, Bool-cases, select, update,
}
use session_search.Queue.Table.{Row, UploadQueue, of_session}
use session_search.Queue.Flush.{has_seq}
use session_search.Queue.Order.{Ascending, KeepsIdentity, Chosen, update-Ascending}
use session_search.Queue.Rounds.{update-Chosen}
use session_search.Queue.Fifo.{outstanding, revisions-update}
use session_search.Queue.Linked.{Chain}
use session_search.Queue.Heads.{rebase, rebased}

-- The rows of a session are linked behind the first.
pub record IsLinked (s : String) (q : UploadQueue) : Type 0 where
  pub links : Chain none (select (of_session s) q.pending)

-- What these calls keep of a queue: the order of its keys, and for the session `s` its outstanding
-- revisions, its acknowledged revision and the links of its rows.
pub record Same (s : String) (q q' : UploadQueue) : Type 0 where
  pub ascending : Ascending q'.pending
  pub revisions : outstanding s q' ≡ outstanding s q
  pub acknowledged : q'.acknowledged ≡ q.acknowledged
  pub files : q'.files ≡ q.files
  pub linked : IsLinked s q → IsLinked s q'

update-above :
    (n : ℕ) (f : Row → Row) (rs : List Row) → All (λ o. n < o.seq) rs → update (has_seq n) f rs ≡ rs
unfolding update
update-above n f [] h = refl
update-above n f (r ∷ rs) h = ground (arith, update-above n f rs h.1)

select-update_other :
    (s : String) (row : Row) (f : Row → Row)
    → KeepsIdentity f
    → (rs : List Row) → All (Chosen row) rs
    → s ≢ row.session_id
    → select (of_session s) (update (has_seq row.seq) f rs) ≡ select (of_session s) rs
unfolding select update
select-update_other s row f k [] c n = refl
select-update_other s row f k (r ∷ rs) c n =
    ground (arith, select-update_other s row f k rs c.1 n, c.0.0, k r)

-- A change of the first row of a session leaves the links behind it.
Chain-update_first :
    (row : Row) (f : Row → Row)
    → KeepsIdentity f
    → (rs : List Row) → Ascending rs
    → All (Chosen row) rs
    → Chain none (select (of_session row.session_id) rs)
    → Chain none (select (of_session row.session_id) (update (has_seq row.seq) f rs))
unfolding select update
Chain-update_first row f k [] h c l = tt
Chain-update_first row f k (r ∷ rs) h c l = elim (Bool-cases (has_seq row.seq r)) [
  | inl e ↦
      let seq : r.seq ≡ row.seq = ground arith in
      let above : All (λ o. row.seq < o.seq) rs = All-mono (λ o b. omega arith) rs h.0 in
      let own : of_session row.session_id r ≡ true = ground (arith, c.0.0 seq) in
      let own_f : of_session row.session_id (f r) ≡ true = ground (arith, c.0.0 seq, k r) in
      rw (e, own_f, update-above row.seq f rs above)
        (
          tt,
          subst (λ v. Chain (some (some v)) (select (of_session row.session_id) rs)) (sym (k r).2)
              (rw own at l).1,
        )
  | inr e ↦ elim (Bool-cases (of_session row.session_id r)) [
    | inl own ↦
        let above : All (λ o. row.seq < o.seq) rs =
          All-mono (λ o b. ground (arith, c.0.1)) rs h.0 in
        rw (e, own, update-above row.seq f rs above) (rw own at l)
    | inr other ↦ rw (e, other) (Chain-update_first row f k rs h.1 c.1 (rw other at l))
  ]
]

rebased-KeepsIdentity : (e : Option String) → KeepsIdentity (rebased e)
rebased-KeepsIdentity e r = (refl, refl, refl)

rebase-Same :
    (s : String) (row : Row) (e : Option String) (q : UploadQueue)
    → Ascending q.pending
    → All (Chosen row) q.pending
    → Same s q (rebase row.seq e q)
unfolding rebase outstanding
rebase-Same s row e q h c = record {
  ascending = update-Ascending (has_seq row.seq) (rebased e) (rebased-KeepsIdentity e) q.pending h;
  revisions = revisions-update s (has_seq row.seq) (rebased e) (rebased-KeepsIdentity e) q.pending;
  acknowledged = refl;
  files = refl;
  linked = λ l. record {
    links = elim (string_dec s row.session_id) [
      | yes p ↦ rw p (
          Chain-update_first row (rebased e) (rebased-KeepsIdentity e) q.pending h c
            (subst (λ t. Chain none (select (of_session t) q.pending)) p l.links))
      | no n ↦
          rw (select-update_other s row (rebased e) (rebased-KeepsIdentity e) q.pending c n) l.links
    ];
  };
}

Same-refl : (s : String) (q : UploadQueue) → Ascending q.pending → Same s q q
Same-refl s q h = record {
  ascending = h;
  revisions = refl;
  acknowledged = refl;
  files = refl;
  linked = λ l. l;
}

Same-trans : (s : String) (a b c : UploadQueue) → Same s a b → Same s b c → Same s a c
Same-trans s a b c x y = record {
  ascending = y.ascending;
  revisions = y.revisions ∙ x.revisions;
  acknowledged = y.acknowledged ∙ x.acknowledged;
  files = y.files ∙ x.files;
  linked = λ l. y.linked (x.linked l);
}

rebase-Chosen :
    (row other : Row) (e : Option String) (q : UploadQueue)
    → All (Chosen other) q.pending
    → All (Chosen other) (rebase row.seq e q).pending
unfolding rebase
rebase-Chosen row other e q h =
    update-Chosen (has_seq row.seq) (rebased e) (rebased-KeepsIdentity e) other q.pending h

-- From `start` to `q` nothing else changed, and what was the oldest row of its session is so still.
pub record Reached (s : String) (start q : UploadQueue) : Type 0 where
  pub same : Same s start q
  pub chosen : (row : Row) → All (Chosen row) start.pending → All (Chosen row) q.pending

pub Reached-refl : (s : String) (q : UploadQueue) → Ascending q.pending → Reached s q q
Reached-refl s q h = record { same = Same-refl s q h; chosen = λ row c. c }

pub Reached-rebase :
    (s : String) (start q : UploadQueue) (row : Row) (e : Option String)
    → All (Chosen row) start.pending
    → Reached s start q
    → Reached s start (rebase row.seq e q)
Reached-rebase s start q row e c r = record {
  same =
      Same-trans s start q (rebase row.seq e q) r.same
        (rebase-Same s row e q r.same.ascending (r.chosen row c));
  chosen = λ other h. rebase-Chosen row other e q (r.chosen other h);
}
