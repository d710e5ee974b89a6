-- ===== src/Checkpoints/Evict.antt =====
-- Eviction: what is left fits, the target stays, and no entry changes.
use session_search.Base.{
  ℕ, ◌+◌, ◌-◌, ◌≤◌, ◌≡◌, ◌≢◌, ◌⊎◌, refl, sym, ap, subst, ◌∙◌, inl, inr, String, true, none, some,
  [], ◌∷◌, arith, if◌then◌else◌, ◌==◌, nat_eq, string_eq, ltb, leb, length, All, Bool-cases, lookup,
  lookup-without, without,
}
use session_search.Checkpoints.{Entry, Directory, is_cache, insert, sorted, evict}

-- The bytes of the cache files.
unfoldable pub used : Directory → ℕ
used [] = 0
used ((name, e) ∷ dir) = if is_cache name then length e.bytes + used dir else used dir

-- No entry changes: each is as it was, or gone.
abbrev pub Shrinks : Directory → Directory → Type 0
Shrinks a b = (n : String) → (lookup n b ≡ lookup n a) ⊎ (lookup n b ≡ none)

Shrinks-without : (n : String) (dir : Directory) → Shrinks dir (without n dir)
Shrinks-without n dir m = elim (Bool-cases (m == n)) [
  | inl same ↦ inr (ground (arith, lookup-without m n dir))
  | inr differ ↦ inl (ground (arith, lookup-without m n dir))
]

pub Shrinks-trans : (a b c : Directory) → Shrinks a b → Shrinks b c → Shrinks a c
Shrinks-trans a b c x y n = elim (y n) [
  | inr gone ↦ inr gone
  | inl same ↦ elim (x n) [ inl before ↦ inl (same ∙ before) | inr gone ↦ inr (same ∙ gone) ]
]

used_less : (name : String) (dir : Directory) → used (without name dir) ≤ used dir
unfolding used without
used_less name [] = omega arith
used_less name ((n, x) ∷ dir) = ground (arith, used_less name dir)

used-without :
    (name : String) (e : Entry) (dir : Directory)
    → is_cache name ≡ true
    → lookup name dir ≡ some e
    → used (without name dir) + length e.bytes ≤ used dir
unfolding used without lookup
used-without name e [] cache h = absurd (ground arith)
used-without name e ((n, x) ∷ dir) cache h = elim (Bool-cases (name == n)) [
  | inl same ↦
      let named : is_cache n ≡ true = ap is_cache (let t : n ≡ name = ground arith in t) ∙ cache in
      ground (arith, used_less name dir, named, (let t : x ≡ e = ground arith in t))
  | inr differ ↦ ground (arith, used-without name e dir cache (ground arith))
]

-- What `evict` expects of the entries that it goes through.
abbrev pub Present : Directory → String × Entry → Type 0
Present dir p = (is_cache p.0 ≡ true) × (lookup p.0 dir ≡ some p.1)

abbrev pub Apart : Directory → Type 0
Apart [] = Unit
Apart (p ∷ dir) = All (λ (q : String × Entry). q.0 ≢ p.0) dir × Apart dir

Present-without :
    (name : String) (dir olds : Directory)
    → All (λ (q : String × Entry). q.0 ≢ name) olds
    → All (Present dir) olds
    → All (Present (without name dir)) olds
Present-without name dir [] a h = tt
Present-without name dir (p ∷ olds) a h = (
  (h.0.0, ground (arith, lookup-without p.0 name dir, a.0, h.0.1)),
  Present-without name dir olds a.1 h.1,
)

-- The size in hand covers what is there, the target is as it was, and nothing has changed.
abbrev pub Evicted : String → Directory → ℕ × Directory → Type 0
Evicted target dir (total, left) =
    (used left ≤ total) × (lookup target left ≡ lookup target dir) × Shrinks dir left

pub evict-Evicted :
    (budget needed : ℕ) (target : String) (olds : Directory) (total : ℕ) (dir : Directory)
    → All (Present dir) olds
    → Apart olds
    → used dir ≤ total
    → Evicted target dir (evict budget needed target olds total dir)
unfolding evict
evict-Evicted budget needed target [] total dir present apart h = (h, refl, λ n. inl refl)
evict-Evicted budget needed target ((name, e) ∷ olds) total dir present apart h =
    elim (Bool-cases (leb (total + needed) budget)) [
      | inl fits ↦
          let out : evict budget needed target ((name, e) ∷ olds) total dir ≡ (total, dir) =
            rw fits refl in
          subst (Evicted target dir) (sym out) (h, refl, λ n. inl refl)
      | inr full ↦ elim (Bool-cases (name == target)) [
        | inl own ↦
            let out : evict budget needed target ((name, e) ∷ olds) total dir
                ≡ evict budget needed target olds total dir =
              ground (arith, full, own) in
            subst (Evicted target dir) (sym out)
              (evict-Evicted budget needed target olds total dir present.1 apart.1 h)
        | inr other ↦
            let out : evict budget needed target ((name, e) ∷ olds) total dir
                ≡ evict budget needed target olds (total - length e.bytes) (without name dir) =
              ground (arith, full, other) in
            let less : used (without name dir) + length e.bytes ≤ used dir =
              used-without name e dir present.0.0 present.0.1 in
            let ih : Evicted target (without name dir)
                (evict budget needed target olds (total - length e.bytes) (without name dir)) =
              evict-Evicted budget needed target olds (total - length e.bytes) (without name dir)
                (Present-without name dir olds apart.0 present.1) apart.1 (omega arith) in
            subst (Evicted target dir) (sym out) (
              ih.0,
              ih.1 ∙ ground (arith, lookup-without target name dir, other),
              Shrinks-trans dir (without name dir) _ (Shrinks-without name dir) ih.2,
            )
      ]
    ]

-- Sorting keeps what holds of every entry.
All-insert {κ} :
    (P : String × Entry → Type κ) (p : String × Entry) (dir : Directory)
    → P p
    → All P dir
    → All P (insert p dir)
unfolding insert
All-insert P p [] h k = (h, tt)
All-insert P p (q ∷ dir) h k = elim (Bool-cases (ltb q.1.mtime p.1.mtime)) [
  | inl older ↦ rw older (k.0, All-insert P p dir h k.1)
  | inr newer ↦ rw newer (h, k)
]

pub All-sorted {κ} :
    (P : String × Entry → Type κ) (dir : Directory) → All P dir → All P (sorted dir)
unfolding sorted
All-sorted P [] h = tt
All-sorted P (p ∷ dir) h = All-insert P p (sorted dir) h.0 (All-sorted P dir h.1)

Apart-insert :
    (p : String × Entry) (dir : Directory)
    → All (λ (q : String × Entry). q.0 ≢ p.0) dir
    → Apart dir
    → Apart (insert p dir)
unfolding insert
Apart-insert p [] h k = (tt, tt)
Apart-insert p (q ∷ dir) h k = elim (Bool-cases (ltb q.1.mtime p.1.mtime)) [
  | inl older ↦ rw older (
    All-insert (λ (r : String × Entry). r.0 ≢ q.0) p dir (λ e. h.0 (sym e)) k.0,
    Apart-insert p dir h.1 k.1,
  )
  | inr newer ↦ rw newer (h, k)
]

pub Apart-sorted : (dir : Directory) → Apart dir → Apart (sorted dir)
unfolding sorted
Apart-sorted [] h = tt
Apart-sorted (p ∷ dir) h =
    Apart-insert p (sorted dir) (All-sorted (λ (q : String × Entry). q.0 ≢ p.0) dir h.0)
      (Apart-sorted dir h.1)
