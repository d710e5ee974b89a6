-- ===== src/Queue/Rows.antt =====
-- Selections, updates and deletions in a table whose keys ascend.
use session_search.Base.{
  ℕ, zero, suc, ◌<◌, ◌≡◌, refl, Bool, true, false, inl, inr, some, List, [], ◌∷◌, arith, take,
  nat_eq, string_eq, ℕ_discrete, length, Bool-cases, All, All-mono, All-pair, All-select, All-take,
  select, find, update,
}
use session_search.Queue.Table.{Row, delete}
use session_search.Queue.Flush.{has_seq}
use session_search.Queue.Order.{Ascending}

pub find_self :
    (rs : List Row) → Ascending rs → All (λ row. find (has_seq row.seq) rs ≡ some row) rs
unfolding find
find_self [] h = tt
find_self (r ∷ rs) h = (
  ground arith,
  All-mono (λ row (later, found). ground (arith, found)) rs
      (All-pair (λ o. r.seq < o.seq) _ rs h.0 (find_self rs h.1)),
)

pub select-Ascending : (p : Row → Bool) (rs : List Row) → Ascending rs → Ascending (select p rs)
unfolding select
select-Ascending p [] h = tt
select-Ascending p (r ∷ rs) h = elim (Bool-cases (p r)) [
  | inl e ↦ rw e (All-select (λ o. r.seq < o.seq) p rs h.0, select-Ascending p rs h.1)
  | inr e ↦ rw e (select-Ascending p rs h.1)
]

pub take-Ascending : (n : ℕ) (rs : List Row) → Ascending rs → Ascending (take n rs)
take-Ascending zero rs h = tt
take-Ascending (suc n) [] h = tt
take-Ascending (suc n) (r ∷ rs) h =
    (All-take (λ o. r.seq < o.seq) n rs h.0, take-Ascending n rs h.1)

pub All-update_if :
    (P Q : Row → Type 0) (p : Row → Bool) (f : Row → Row)
    → ((r : Row) → p r ≡ true → P r → Q (f r))
    → ((r : Row) → P r → Q r)
    → (rs : List Row) → All P rs
    → All Q (update p f rs)
unfolding update
All-update_if P Q p f k j [] h = tt
All-update_if P Q p f k j (r ∷ rs) h = elim (Bool-cases (p r)) [
  | inl e ↦ rw e (k r e h.0, All-update_if P Q p f k j rs h.1)
  | inr e ↦ rw e (j r h.0, All-update_if P Q p f k j rs h.1)
]

pub select-delete :
    (t : Row → Bool) (n : ℕ) (rs : List Row)
    → All (λ x. x.seq ≡ n → t x ≡ false) rs
    → length (select t (delete n rs)) ≡ length (select t rs)
unfolding select delete
select-delete t n [] h = refl
select-delete t n (r ∷ rs) h = ground (arith, select-delete t n rs h.1, h.0)

update-above :
    (f : Row → Row) (n : ℕ) (rs : List Row) → All (λ o. n < o.seq) rs → update (has_seq n) f rs ≡ rs
unfolding update
update-above f n [] h = refl
update-above f n (r ∷ rs) h = ground (arith, update-above f n rs h.1)

-- An update that changes the test of the one row it hits.
pub select-update :
    (t : Row → Bool) (f : Row → Row) (n : ℕ) (stored : Row) (rs : List Row)
    → Ascending rs
    → find (has_seq n) rs ≡ some stored
    → All (λ x. x.seq ≡ n → (t x ≡ false) × (t (f x) ≡ true)) rs
    → length (select t (update (has_seq n) f rs)) ≡ suc (length (select t rs))
unfolding select update find
select-update t f n stored [] a e h = absurd (ground arith)
select-update t f n stored (r ∷ rs) a e h = elim (ℕ_discrete r.seq n) [
  | yes hit ↦
      let rest : update (has_seq n) f rs ≡ rs =
        update-above f n rs (All-mono (λ o l. omega (arith, hit, l)) rs a.0) in
      ground (arith, hit, rest, h.0 hit)
  | no miss ↦ ground (arith, miss, select-update t f n stored rs a.1 (ground (arith, miss, e)) h.1)
]

pub select_none :
    (t : Row → Bool) (rs : List Row) → All (λ x. t x ≡ false) rs → length (select t rs) ≡ 0
unfolding select
select_none t [] h = refl
select_none t (r ∷ rs) h = ground (arith, select_none t rs h.1, h.0)
