-- ===== src/Incremental/Lines.antt =====
-- What `line_offset` gives: the place behind the newlines that it counts.
use session_search.Base.{
  ℕ, zero, suc, ◌+◌, ◌-◌, ◌≤◌, ◌<◌, ◌≡◌, refl, sym, ap, ◌∙◌, inl, inr, Option, none, some, List, [],
  ◌∷◌, ◌++◌, arith, if◌then◌else◌, ◌==◌, nat_eq, ltb, leb, length, drop, concat, concat-split,
  Bool-cases, Option-cases,
}
use session_search.Base.Result.{Result, ok, err, value_error}
use session_search.Incremental.{newline, count, find_newline, seek, line_loop, line_offset}

-- Moved on by `n` bytes.
abbrev pub moved : ℕ → Option ℕ → Option ℕ
moved n none = none
moved n (some i) = some (n + i)

-- The number of bytes up to and with the newline number `k`.
unfoldable pub after_lines : ℕ → List ℕ → Option ℕ
after_lines zero bs = some 0
after_lines (suc k) [] = none
after_lines (suc k) (b ∷ bs) =
    moved 1 (if b == newline then after_lines k bs else after_lines (suc k) bs)

moved_twice : (m n : ℕ) (o : Option ℕ) → moved m (moved n o) ≡ moved (m + n) o
moved_twice m n none = refl
moved_twice m n (some i) = ap some (let e : m + (n + i) ≡ m + n + i = omega arith in e)

moved_zero : (o : Option ℕ) → moved 0 o ≡ o
moved_zero none = refl
moved_zero (some i) = ap some (let e : 0 + i ≡ i = omega arith in e)

abbrev pub or_error : Option ℕ → Result ℕ
or_error none = err value_error
or_error (some i) = ok i

after_lines-append :
    (k : ℕ) (a b : List ℕ)
    → after_lines k (a ++ b) ≡ (
        if leb k (count a) then after_lines k a else moved (length a) (after_lines (k - count a) b))
unfolding after_lines count
after_lines-append zero a b = ground arith
after_lines-append (suc k) [] b =
    ground
      (arith, moved_zero (after_lines (suc k) b), (let e : suc k - 0 ≡ suc k = omega arith in e))
after_lines-append (suc k) (x ∷ a) b = elim (Bool-cases (x == newline)) [
  | inl yes_ ↦
      ground
        (arith, after_lines-append k a b, moved_twice 1 (length a) (after_lines (k - count a) b))
  | inr no_ ↦ ground (
    arith,
    after_lines-append (suc k) a b,
    moved_twice 1 (length a) (after_lines (suc k - count a) b),
  )
]

-- One newline further.
find_newline-after_lines :
    (k : ℕ) (bs : List ℕ)
    → after_lines (suc k) bs ≡ elim (find_newline bs) [
      | none ↦ none
      | some i ↦ moved (suc i) (after_lines k (drop (suc i) bs))
    ]
unfolding after_lines find_newline
find_newline-after_lines k [] = refl
find_newline-after_lines k (b ∷ bs) = elim (Bool-cases (b == newline)) [
  | inl yes_ ↦ ground arith
  | inr no_ ↦ elim (Option-cases (find_newline bs)) [
    | inl missing ↦ ground (arith, find_newline-after_lines k bs, missing)
    | inr (j, found) ↦ ground (
      arith,
      find_newline-after_lines k bs,
      found,
      moved_twice 1 (suc j) (after_lines k (drop (suc j) bs)),
    )
  ]
]

drop_nil : (m : ℕ) → drop {A = ℕ} m [] ≡ []
drop_nil zero = refl
drop_nil (suc m) = refl

drop_twice : (m n : ℕ) (bs : List ℕ) → drop m (drop n bs) ≡ drop (n + m) bs
drop_twice m zero bs = ap (λ k. drop k bs) (let e : m ≡ 0 + m = omega arith in e)
drop_twice m (suc n) [] = drop_nil m ∙ sym (drop_nil (suc n + m))
drop_twice m (suc n) (b ∷ bs) =
    drop_twice m n bs
    ∙ ap (λ k. drop k (b ∷ bs)) (let e : suc (n + m) ≡ suc n + m = omega arith in e)

seek_lem :
    (k next : ℕ) (block : List ℕ) (i : ℕ)
    → after_lines k (drop next block) ≡ some i
    → seek k next block ≡ next + i
unfolding seek after_lines
seek_lem zero next block i h = ground arith
seek_lem (suc k) next block i h = elim (Option-cases (find_newline (drop next block))) [
  | inl missing ↦ absurd (ground (arith, find_newline-after_lines k (drop next block), missing))
  | inr (j, found) ↦ elim (Option-cases (after_lines k (drop (suc j) (drop next block)))) [
    | inl short ↦
        absurd (ground (arith, find_newline-after_lines k (drop next block), found, short))
    | inr (i', later) ↦
        let sum : i ≡ suc j + i' =
          ground (arith, find_newline-after_lines k (drop next block), found, later) in
        let same : drop (suc j) (drop next block) ≡ drop (suc (next + j)) block =
          drop_twice (suc j) next block
          ∙ ap (λ n. drop n block) (let e : next + suc j ≡ suc (next + j) = omega arith in e) in
        let step : seek (suc k) next block ≡ seek k (suc (next + j)) block =
          rw (seek, found) refl in
        step
        ∙ seek_lem k (suc (next + j)) block i' (ap (after_lines k) (sym same) ∙ later)
        ∙ omega arith
  ]
]

after_lines_within : (k : ℕ) (bs : List ℕ) → k ≤ count bs → (i : ℕ) × (after_lines k bs ≡ some i)
unfolding after_lines count
after_lines_within zero bs h = (0, refl)
after_lines_within (suc k) [] h = absurd (omega arith)
after_lines_within (suc k) (b ∷ bs) h = elim (Bool-cases (b == newline)) [
  | inl yes_ ↦ let (i, at) = after_lines_within k bs (ground arith) in (1 + i, ground (arith, at))
  | inr no_ ↦
      let (i, at) = after_lines_within (suc k) bs (ground arith) in (1 + i, ground (arith, at))
]

line_loop_lem :
    (k offset : ℕ) (parts : List (List ℕ))
    → line_loop k offset parts ≡ or_error (moved offset (after_lines k (concat parts)))
unfolding line_loop after_lines
line_loop_lem zero offset parts = ap ok (let e : offset ≡ offset + 0 = omega arith in e)
line_loop_lem (suc k) offset [] = refl
line_loop_lem (suc k) offset (block ∷ parts) = elim (Bool-cases (ltb (count block) (suc k))) [
  | inl further ↦
      let ih : line_loop (suc k - count block) (offset + length block) parts
          ≡ or_error
              (moved (offset + length block) (after_lines (suc k - count block) (concat parts))) =
        line_loop_lem (suc k - count block) (offset + length block) parts in
      ground (
        arith,
        ih,
        after_lines-append (suc k) block (concat parts),
        moved_twice offset (length block) (after_lines (suc k - count block) (concat parts)),
      )
  | inr here ↦
      let (i, at) = after_lines_within (suc k) block (ground arith) in
      ground
        (arith, after_lines-append (suc k) block (concat parts), at, seek_lem (suc k) 0 block i at)
]

-- For blocks that are not empty, line_offset gives the place behind the newline that starts the
-- line asked for, counted from the place and line it is given, and is a ValueError when the line
-- lies before them or the file has too few newlines.
pub line_offset_lem :
    (block_size : ℕ) (content : List ℕ) (target start_offset start_line : ℕ)
    → 0 < block_size
    → line_offset block_size content target start_offset start_line ≡ (
        if ltb target start_line
        then err value_error
        else or_error
            (moved start_offset (after_lines (target - start_line) (drop start_offset content))))
unfolding line_offset
line_offset_lem block_size content target start_offset start_line positive =
    rw
      (
        line_offset,
        line_loop_lem,
        concat-split (length (drop start_offset content)) block_size (drop start_offset content)
            positive (omega arith),
      )
      refl
