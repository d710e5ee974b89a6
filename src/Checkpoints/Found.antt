-- ===== src/Checkpoints/Found.antt =====
-- What `_entries` finds.
use session_search.Base.{
  ℕ, ◌≡◌, ◌≢◌, ◌⊎◌, refl, sym, ap, subst, ◌∙◌, inl, inr, String, true, false, not, some, List, [],
  ◌∷◌, arith, ◌==◌, nat_eq, string_eq, bytes_eq, take, codes, all_hex, All, All-mono, All-pair,
  Bool-cases, lookup, lookup_keys, select,
}
use session_search.Base.Result.{Result-cases, ok}
use session_search.Checkpoints.{
  Entry, Directory, is_cache, is_staged, is_leftover, entries, total_size,
}
use session_search.Checkpoints.Evict.{used, Present, Apart}

first_byte : List ℕ → ℕ
first_byte [] = 0
first_byte (x ∷ xs) = x

hex_apart : (cs : List ℕ) → all_hex (take 64 cs) ≡ true → take 12 cs ≢ codes ".checkpoint-"
unfolding all_hex codes first_byte
hex_apart [] h e = (let t : Path ℕ 0 46 = ap first_byte e in omega arith)
hex_apart (x ∷ xs) h e =
    let dot : x ≡ 46 = ap first_byte e in
    let hex : all_hex (take 64 (46 ∷ xs)) ≡ true =
      ap (λ y. all_hex (take 64 (y ∷ xs))) (sym dot) ∙ h in
    ground arith

-- A name of a cache file is not one of a leftover.
pub is_cache-is_staged : (name : String) → is_cache name ≡ true → is_staged name ≡ false
unfolding is_cache is_staged
is_cache-is_staged name h = elim (Bool-cases (is_staged name)) [
  | inr apart ↦ apart
  | inl staged ↦ absurd (hex_apart (codes name) (ground arith) (ground arith))
]

-- Nor is the lock file.
pub lock_apart : (name : String) → name ≡ ".lock" → is_cache name ≡ false
unfolding is_cache codes all_hex
lock_apart name h = ap is_cache h

pub used-select :
    (dir : Directory) → used (select (λ (p : String × Entry). not (is_leftover p)) dir) ≡ used dir
unfolding used select
used-select [] = refl
used-select ((name, e) ∷ dir) = elim (Bool-cases (is_cache name)) [
  | inl cache ↦ ground (arith, used-select dir, is_cache-is_staged name cache)
  | inr other ↦ ground (arith, used-select dir)
]

-- An entry is passed over, or it is a cache file and found.
Listed : String → Entry → Directory → Directory → Type 0
Listed name e dir found =
    ((is_cache name ≡ false) × (entries dir ≡ ok found))
    ⊎ ((rest : Directory) × (is_cache name ≡ true)
        × (entries dir ≡ ok rest)
        × (found ≡ (name, e) ∷ rest))

entries_cases :
    (name : String) (e : Entry) (dir found : Directory)
    → entries ((name, e) ∷ dir) ≡ ok found
    → Listed name e dir found
unfolding entries Listed
entries_cases name e dir found h = elim (Bool-cases (name == ".lock")) [
  | inl lock ↦ inl (lock_apart name (ground arith), ground arith)
  | inr other ↦ elim (Bool-cases (is_cache name)) [
    | inl cache ↦ elim (Result-cases (entries dir)) [
      | inl (rest, read) ↦ inr (rest, cache, read, ground arith)
      | inr (x, failed) ↦ absurd (ground arith)
    ]
    | inr plain ↦ inl (plain, ground arith)
  ]
]

pub entries_size : (dir found : Directory) → entries dir ≡ ok found → total_size found ≡ used dir
unfolding entries used total_size Listed
entries_size [] found h = ap total_size (let e : found ≡ [] = ground arith in e)
entries_size ((name, e) ∷ dir) found h = elim (entries_cases name e dir found h) [
  | inl (plain, read) ↦ ground (arith, entries_size dir found read)
  | inr (rest, cache, read, same) ↦ ap total_size same ∙ ground (arith, entries_size dir rest read)
]

entries-All :
    (P : String × Entry → Type 0) (dir found : Directory)
    → All P dir
    → entries dir ≡ ok found
    → All (λ (p : String × Entry). P p × (is_cache p.0 ≡ true)) found
unfolding entries Listed
entries-All P [] found all h =
    subst (All (λ (p : String × Entry). P p × (is_cache p.0 ≡ true)))
      (sym (let e : found ≡ [] = ground arith in e)) tt
entries-All P ((name, e) ∷ dir) found all h = elim (entries_cases name e dir found h) [
  | inl (plain, read) ↦ entries-All P dir found all.1 read
  | inr (rest, cache, read, same) ↦
      subst (All (λ (p : String × Entry). P p × (is_cache p.0 ≡ true))) (sym same)
        ((all.0, cache), entries-All P dir rest all.1 read)
]

pub entries-Apart : (dir found : Directory) → Apart dir → entries dir ≡ ok found → Apart found
unfolding entries Listed
entries-Apart [] found apart h = subst Apart (sym (let e : found ≡ [] = ground arith in e)) tt
entries-Apart ((name, e) ∷ dir) found apart h = elim (entries_cases name e dir found h) [
  | inl (plain, read) ↦ entries-Apart dir found apart.1 read
  | inr (rest, cache, read, same) ↦ subst Apart (sym same) (
    All-mono {P = λ (q : String × Entry). (q.0 ≢ name) × (is_cache q.0 ≡ true)}
        {Q = λ (q : String × Entry). q.0 ≢ name} (λ q x. x.0) rest
        (entries-All (λ (q : String × Entry). q.0 ≢ name) dir rest apart.0 read),
    entries-Apart dir rest apart.1 read,
  )
]

lookup-All :
    (dir : Directory) → Apart dir → All (λ (p : String × Entry). lookup p.0 dir ≡ some p.1) dir
unfolding lookup
lookup-All [] apart = tt
lookup-All ((name, e) ∷ dir) apart = (
  ground arith,
  All-mono {P = λ (p : String × Entry). (p.0 ≢ name) × (lookup p.0 dir ≡ some p.1)}
      {Q = λ (p : String × Entry). lookup p.0 ((name, e) ∷ dir) ≡ some p.1} (λ p x. ground arith)
      dir
      (All-pair (λ (p : String × Entry). p.0 ≢ name)
        (λ (p : String × Entry). lookup p.0 dir ≡ some p.1) dir apart.0 (lookup-All dir apart.1)),
)

-- The leftovers are gone, and all that was found is still there.
pub entries-Present :
    (dir found : Directory)
    → Apart dir
    → entries dir ≡ ok found
    → All (Present (select (λ p. not (is_leftover p)) dir)) found
entries-Present dir found apart h =
    All-mono {P = λ (p : String × Entry). (lookup p.0 dir ≡ some p.1) × (is_cache p.0 ≡ true)}
      {Q = Present (select (λ p. not (is_leftover p)) dir)}
      (λ p x. (
        x.1,
        ground
            (arith, lookup_keys p.0 (λ n. not (is_staged n)) dir, is_cache-is_staged p.0 x.1, x.0),
      ))
      found
      (entries-All (λ (p : String × Entry). lookup p.0 dir ≡ some p.1) dir found
        (lookup-All dir apart) h)
