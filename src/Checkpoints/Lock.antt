-- ===== src/Checkpoints/Lock.antt =====
-- What opening the lock file changes in the directory.
use session_search.Base.{
  ℕ, ◌≡◌, ◌≢◌, ◌⊎◌, refl, sym, ap, subst, ◌∙◌, inl, inr, String, true, none, some, [], ◌∷◌, arith,
  ◌==◌, string_eq, string_dec, Bool-cases, Option-cases, All-upsert, lookup, lookup-upsert, upsert,
}
use session_search.Checkpoints.{Entry, Directory, is_cache, lock_file, open_lock}
use session_search.Checkpoints.Evict.{Apart}
use session_search.Checkpoints.Found.{lock_apart}

-- The other entries are as they were, or gone.
abbrev pub Shrunk : String → Directory → Directory → Type 0
Shrunk target dir after =
    (n : String) → n ≢ target → (lookup n after ≡ lookup n dir) ⊎ (lookup n after ≡ none)

-- The lock file, when there was none.
abbrev pub Created : ℕ → String → Directory → Directory → Type 0
Created now n dir after =
    (n ≡ ".lock") × (lookup n dir ≡ none) × (lookup n after ≡ some (lock_file now))

-- The other entries are as they were, or gone, or the lock file that the call has created.
abbrev pub Framed : ℕ → String → Directory → Directory → Type 0
Framed now target dir after =
    (n : String)
    → n ≢ target
    → (lookup n after ≡ lookup n dir) ⊎ ((lookup n after ≡ none) ⊎ Created now n dir after)

-- Opening the lock file changes nothing else.
open_lock_lem :
    (now : ℕ) (n : String) (dir : Directory)
    → (lookup n (open_lock now dir) ≡ lookup n dir) ⊎ Created now n dir (open_lock now dir)
unfolding open_lock
open_lock_lem now n dir = elim (Option-cases (lookup ".lock" dir)) [
  | inr (e, found) ↦
      let same : open_lock now dir ≡ dir = rw (open_lock, found) refl in inl (ap (lookup n) same)
  | inl missing ↦ elim (string_dec n ".lock") [
    | no other ↦ inl (ground (arith, missing, other, lookup-upsert n ".lock" (lock_file now) dir))
    | yes lock ↦ inr (
      lock,
      ap (λ m. lookup m dir) lock ∙ missing,
      ground (arith, missing, lock, lookup-upsert n ".lock" (lock_file now) dir),
    )
  ]
]

Apart-upsert :
    (name : String) (e : Entry) (dir : Directory)
    → lookup name dir ≡ none
    → Apart dir
    → Apart (upsert name e dir)
unfolding upsert lookup
Apart-upsert name e [] h apart = (tt, tt)
Apart-upsert name e ((n, x) ∷ dir) h apart = elim (Bool-cases (name == n)) [
  | inl same ↦ absurd (ground arith)
  | inr differ ↦ rw differ (
    All-upsert (λ (q : String × Entry). q.0 ≢ n) name e dir (ground arith) apart.0,
    Apart-upsert name e dir (ground arith) apart.1,
  )
]

pub Apart-open_lock : (now : ℕ) (dir : Directory) → Apart dir → Apart (open_lock now dir)
unfolding open_lock
Apart-open_lock now dir apart = elim (Option-cases (lookup ".lock" dir)) [
  | inr (e, found) ↦
      let same : open_lock now dir ≡ dir = rw (open_lock, found) refl in
      subst Apart (sym same) apart
  | inl missing ↦
      let made : open_lock now dir ≡ upsert ".lock" (lock_file now) dir =
        rw (open_lock, missing) refl in
      subst Apart (sym made) (Apart-upsert ".lock" (lock_file now) dir missing apart)
]

pub Shrunk-Framed :
    (now : ℕ) (target : String) (dir after : Directory)
    → Shrunk target (open_lock now dir) after
    → Framed now target dir after
Shrunk-Framed now target dir after h n other = elim (h n other) [
  | inr gone ↦ inr (inl gone)
  | inl same ↦ elim (open_lock_lem now n dir) [
    | inl before ↦ inl (same ∙ before)
    | inr (lock, missing, made) ↦ inr (inr (lock, missing, same ∙ made))
  ]
]

pub open_lock-target :
    (now : ℕ) (target : String) (dir : Directory)
    → is_cache target ≡ true
    → lookup target (open_lock now dir) ≡ lookup target dir
open_lock-target now target dir cache = elim (open_lock_lem now target dir) [
  | inl same ↦ same
  | inr (lock, _, _) ↦ absurd (ground (arith, lock_apart target lock, cache))
]
