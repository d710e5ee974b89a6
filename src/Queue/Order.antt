-- ===== src/Queue/Order.antt =====
-- Table `pending` in the order of its keys, and what `delete`, `update` and `find` do to it.
use session_search.Base.{
  ℕ, ◌≤◌, ◌<◌, ◌≡◌, ◌≢◌, refl, String, Bool, inl, inr, none, some, List, [], ◌∷◌, ◌++◌, arith, ◌==◌,
  string_eq, nat_eq, ℕ_discrete, Bool-cases, All, All-mono, All-append, exists, select, find,
  update,
}
use session_search.Queue.Table.{
  Row, of_session, has_request, max_seq, next_seq, insert_or_ignore, delete,
}
use session_search.Queue.Flush.{has_seq}

-- The keys ascend.
abbrev pub Ascending : List Row → Type 0
Ascending [] = Unit
Ascending (r ∷ rs) = All (λ o. r.seq < o.seq) rs × Ascending rs

-- A change of rows that leaves their identity alone.
abbrev pub KeepsIdentity : (Row → Row) → Type 0
KeepsIdentity f =
    (r : Row)
    → ((f r).seq ≡ r.seq) × ((f r).session_id ≡ r.session_id) × ((f r).revision ≡ r.revision)

pub All-delete {ℓ} : (P : Row → Type ℓ) (n : ℕ) (rs : List Row) → All P rs → All P (delete n rs)
unfolding delete
All-delete P n [] h = tt
All-delete P n (r ∷ rs) h = elim (Bool-cases (r.seq == n)) [
  | inl e ↦ rw e (All-delete P n rs h.1)
  | inr e ↦ rw e (h.0, All-delete P n rs h.1)
]

pub All-update {ℓ} :
    (P : Row → Type ℓ) (p : Row → Bool) (f : Row → Row)
    → ((r : Row) → P r → P (f r))
    → (rs : List Row) → All P rs
    → All P (update p f rs)
unfolding update
All-update P p f k [] h = tt
All-update P p f k (r ∷ rs) h = elim (Bool-cases (p r)) [
  | inl e ↦ rw e (k r h.0, All-update P p f k rs h.1)
  | inr e ↦ rw e (h.0, All-update P p f k rs h.1)
]

pub delete-Ascending : (n : ℕ) (rs : List Row) → Ascending rs → Ascending (delete n rs)
unfolding delete
delete-Ascending n [] h = tt
delete-Ascending n (r ∷ rs) h = elim (Bool-cases (r.seq == n)) [
  | inl e ↦ rw e (delete-Ascending n rs h.1)
  | inr e ↦ rw e (All-delete (λ o. r.seq < o.seq) n rs h.0, delete-Ascending n rs h.1)
]

pub update-Ascending :
    (p : Row → Bool) (f : Row → Row)
    → KeepsIdentity f
    → (rs : List Row) → Ascending rs
    → Ascending (update p f rs)
unfolding update
update-Ascending p f k [] h = tt
update-Ascending p f k (r ∷ rs) h =
    let later : All (λ o. r.seq < o.seq) (update p f rs) =
      All-update (λ o. r.seq < o.seq) p f (λ o l. omega (arith, (k o).0)) rs h.0 in
    elim (Bool-cases (p r)) [
      | inl e ↦ rw e (
        All-mono (λ o l. omega (arith, (k r).0)) (update p f rs) later,
        update-Ascending p f k rs h.1,
      )
      | inr e ↦ rw e (later, update-Ascending p f k rs h.1)
    ]

All-max_seq : (rs : List Row) → All (λ o. o.seq ≤ max_seq rs) rs
unfolding max_seq
All-max_seq [] = tt
All-max_seq (r ∷ rs) = (omega arith, All-mono (λ o l. omega arith) rs (All-max_seq rs))

Ascending-append :
    (rs : List Row) (r : Row)
    → Ascending rs
    → All (λ o. o.seq < r.seq) rs
    → Ascending (rs ++ r ∷ [])
Ascending-append [] r h l = (tt, tt)
Ascending-append (o ∷ rs) r h l =
    (All-append (λ x. o.seq < x.seq) rs (r ∷ []) h.0 (l.0, tt), Ascending-append rs r h.1 l.1)

pub insert_or_ignore-Ascending :
    (r : Row) (rs : List Row)
    → r.seq ≡ next_seq rs
    → Ascending rs
    → Ascending (insert_or_ignore r rs)
unfolding insert_or_ignore
insert_or_ignore-Ascending r rs e h = elim (Bool-cases (exists (has_request r.request_id) rs)) [
  | inl old ↦ rw old h
  | inr new ↦ rw new (Ascending-append rs r h (All-mono (λ o l. omega arith) rs (All-max_seq rs)))
]

delete-above : (n : ℕ) (rs : List Row) → All (λ o. n < o.seq) rs → delete n rs ≡ rs
unfolding delete
delete-above n [] h = refl
delete-above n (r ∷ rs) h = ground (arith, delete-above n rs h.1)

find-above : (n : ℕ) (rs : List Row) → All (λ o. n < o.seq) rs → find (has_seq n) rs ≡ none
unfolding find
find-above n [] h = refl
find-above n (r ∷ rs) h = ground (arith, find-above n rs h.1)

-- The row `row` was read from a table of which `o` is a row: if `o` has its key it has its session
-- and revision, and if `o` is of its session it is not older.
abbrev pub Chosen : Row → Row → Type 0
Chosen row o =
    (o.seq ≡ row.seq → (o.session_id ≡ row.session_id) × (o.revision ≡ row.revision))
    × (o.session_id ≡ row.session_id → row.seq ≤ o.seq)

-- A stored row that was chosen is the first of its session, and deleting it leaves the others.
pub select-delete-Chosen :
    (row stored : Row) (rs : List Row)
    → Ascending rs
    → All (Chosen row) rs
    → find (has_seq row.seq) rs ≡ some stored
    → (select (of_session row.session_id) rs
        ≡ stored ∷ select (of_session row.session_id) (delete row.seq rs))
      × (stored.session_id ≡ row.session_id)
      × (stored.revision ≡ row.revision)
unfolding select find delete
select-delete-Chosen row stored [] h c f = cc
select-delete-Chosen row stored (r ∷ rs) h c f = elim (ℕ_discrete r.seq row.seq) [
  | yes e ↦
      let above : All (λ o. row.seq < o.seq) rs = All-mono (λ o l. omega arith) rs h.0 in
      let same : (r.session_id ≡ row.session_id) × (r.revision ≡ row.revision) = c.0.0 e in
      let found : r ≡ stored = ground arith in ground (arith, delete-above row.seq rs above)
  | no n ↦ elim (Bool-cases (of_session row.session_id r)) [
    | inl own ↦
        let above : All (λ o. row.seq < o.seq) rs =
          All-mono (λ o l. ground (arith, c.0.1)) rs h.0 in
        absurd (ground (arith, find-above row.seq rs above))
    | inr other ↦
        let ih : (select (of_session row.session_id) rs
              ≡ stored ∷ select (of_session row.session_id) (delete row.seq rs))
            × (stored.session_id ≡ row.session_id)
            × (stored.revision ≡ row.revision) =
          select-delete-Chosen row stored rs h.1 c.1 (ground arith) in
        ground (arith, ih)
  ]
]

pub select-delete_other :
    (s : String) (row : Row) (rs : List Row)
    → All (Chosen row) rs
    → s ≢ row.session_id
    → select (of_session s) (delete row.seq rs) ≡ select (of_session s) rs
unfolding select delete
select-delete_other s row [] c n = refl
select-delete_other s row (r ∷ rs) c n = ground (arith, select-delete_other s row rs c.1 n, c.0.0)
