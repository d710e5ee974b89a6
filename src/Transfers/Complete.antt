-- ===== src/Transfers/Complete.antt =====
-- What the answer `complete` to an append promises.
use session_search.Base.{
  ℕ, ◌≤◌, ◌≡◌, ◌⊎◌, refl, sym, ap, subst, ◌∙◌, String, true, false, ◌&&◌, inl, inr, none, some,
  List, arith, ◌==◌, nat_eq, string_eq, Bool-cases, Option-cases, length, lookup, upsert,
  lookup-upsert, lookup-without, blocks,
}
use session_search.Base.Result.{Result, Result-cases, ok, err, Error, value_error}
use session_search.Chunks.{
  Chunk, Recipe, Source, ChunkStore, put, put_blocks, recipe_of, chunk_size, max_recipe,
}
use session_search.Chunks
use session_search.Chunks.Immutable.{Extends-refl}
use session_search.Chunks.Restore.{archived, put-restore}
use session_search.Transfers.{Setting, State, Progress, Surroundings, verify, size, retire, finish}

module _ (sha256 : List ℕ → String) (json_size : Recipe → ℕ) (setting : Setting) where
  -- The object is there, has the digest and the length, and its partial file is gone.
  abbrev pub Held : String → String → ℕ → State → Type 0
  Held name key total s =
      (verify sha256 json_size setting key s ≡ true)
      × (size sha256 json_size setting key s ≡ ok total)
      × (lookup name s.partials ≡ none)

  abbrev answer : ℕ → Result Progress
  answer n = ok (record { complete = true; offset = n })

  answer_offset :
      (n total : ℕ) (p : Progress)
      → n ≡ total
      → answer n ≡ ok p
      → p ≡ record { complete = true; offset = total }
  answer_offset n total p e h = ground arith

  pub file-Held :
      (producer_digest : String → String) (name key : String) (total : ℕ) (b : List ℕ) (t : State)
      → lookup key t.files ≡ some b
      → sha256 b == key ≡ true
      → length b ≡ total
      → Held name key total (retire sha256 json_size setting producer_digest name t)
  unfolding verify size
  file-Held producer_digest name key total b t there good whole = (
    rw (verify, there) good,
    rw (size, there) (ap ok whole),
    ground (arith, lookup-without name name t.partials),
  )

  shared-Held :
      (producer_digest : String → String) (name key : String) (total : ℕ) (r : Recipe) (t : State)
      → lookup key t.files ≡ none
      → setting.raw ≡ true
      → Chunks.verify sha256 json_size key t.shared ≡ true
      → Chunks.recipe sha256 json_size key t.shared ≡ ok r
      → r.size ≡ total
      → Held name key total (retire sha256 json_size setting producer_digest name t)
  unfolding verify size
  shared-Held producer_digest name key total r t fresh raw good found whole = (
    rw (verify, fresh, raw, good) refl,
    rw (size, fresh, raw, found) (ap ok whole),
    ground (arith, lookup-without name name t.partials),
  )

  module _ (producer_digest : String → String) (around : Surroundings) (name key : String)
      (total : ℕ) (content : List ℕ) (s : State) where
    abbrev source : Source
    source = record { size_before = length content; bytes = content; changed = around.changed }

    abbrev pub Short : Type 0
    Short =
        (cs : List Chunk)
        → (put_blocks sha256 json_size around.room 0 (blocks chunk_size content) s.shared.chunks).0
          ≡ ok cs
        → json_size (recipe_of sha256 json_size around.room content cs) ≤ max_recipe

    -- The outcome of `finish` when the object is one file.
    linked_lem :
        lookup key s.files ≡ none
        → length content ≡ total
        → sha256 content == key ≡ true
        → setting.chunked ≡ false
        → ((e : Error) × ((finish sha256 json_size setting producer_digest around name key total
                content s).0
              ≡ err e))
          ⊎ ((b : List ℕ) × (finish sha256 json_size setting producer_digest around name key total
                  content s
                ≡ (
                  answer total,
                  retire sha256 json_size setting producer_digest name
                      (record s { files = upsert key b s.files }),
                ))
              × (sha256 b == key ≡ true)
              × (length b ≡ total))
    unfolding finish
    linked_lem fresh whole good single = elim (Option-cases around.linked) [
      | inl alone ↦ inr (content, rw (good, single, alone, whole) refl, good, whole)
      | inr (other, raced) ↦ elim (Bool-cases (sha256 other == key && length other == total)) [
        | inl same ↦
            inr (other, rw (good, single, raced, same, whole) refl, ground arith, ground arith)
        | inr differ ↦ inl (value_error, rw (good, single, raced, differ) refl)
      ]
    ]

    -- The outcome of `finish` when the object goes to the shared chunks.
    shared_lem :
        sha256 content == key ≡ true
        → length content ≡ total
        → setting.chunked ≡ true
        → ((e : Error) × ((finish sha256 json_size setting producer_digest around name key total
                content s).0
              ≡ err e))
          ⊎ ((k : String) × (n : ℕ) × ((put sha256 json_size around.room source
                  (some key)
                  s.shared).0
                ≡ ok (k, n))
              × (finish sha256 json_size setting producer_digest around name key total content s ≡ (
                answer total,
                retire sha256 json_size setting producer_digest name (record s {
                  shared = (put sha256 json_size around.room source (some key) s.shared).1;
                }),
              )))
    unfolding finish
    shared_lem good whole chunked =
        elim (Result-cases (put sha256 json_size around.room source (some key) s.shared).0) [
          | inr (e, failed) ↦ inl (e, rw (good, chunked, failed) refl)
          | inl ((k, n), done) ↦ elim (Bool-cases (n == total)) [
            | inl same ↦ inr (k, n, done, rw (good, chunked, done, same, whole) refl)
            | inr differ ↦ inl (value_error, rw (good, chunked, done, differ) refl)
          ]
        ]

    refused :
        sha256 content == key ≡ false
        → (finish sha256 json_size setting producer_digest around name key total content s).0
          ≡ err value_error
    unfolding finish
    refused bad = rw bad refl

    pub finish-Held :
        (p : Progress)
        → lookup key s.files ≡ none
        → length content ≡ total
        → (setting.chunked ≡ true → setting.raw ≡ true)
        → Short
        → (finish sha256 json_size setting producer_digest around name key total content s).0 ≡ ok p
        → (p ≡ record { complete = true; offset = total })
          × Held name key total
              (finish sha256 json_size setting producer_digest around name key total content s).1
    finish-Held p fresh whole archival short h = elim (Bool-cases (sha256 content == key)) [
      | inr bad ↦ absurd (ground (arith, refused bad))
      | inl good ↦ elim (Bool-cases setting.chunked) [
        | inl chunked ↦ elim (shared_lem good whole chunked) [
          | inl (e, failed) ↦ absurd (ground arith)
          | inr (k, n, done, e) ↦
              let after : ChunkStore =
                (put sha256 json_size around.room source (some key) s.shared).1 in
              let there : (k ≡ sha256 content)
                  × (n ≡ length content)
                  × (Chunks.verify sha256 json_size k after ≡ true)
                  × (Chunks.restore sha256 json_size false k after ≡ ok content) =
                put-restore sha256 json_size around.room source (some key) s.shared after k n done
                  short (Extends-refl after.chunks) (Extends-refl after.recipes) in
              let (_, _, _, r, found, size_of) =
                archived sha256 json_size around.room source (some key) s.shared after k n done
                  short (Extends-refl after.chunks) (Extends-refl after.recipes) in
              let same : k ≡ key = ground (arith, there.0) in
              (
                answer_offset total total p refl (sym (ap (λ x. x.0) e) ∙ h),
                rw e (
                    shared-Held producer_digest name key total r (record s { shared = after }) fresh
                      (archival chunked)
                      (subst (λ j. Chunks.verify sha256 json_size j after ≡ true) same there.2)
                      (subst (λ j. Chunks.recipe sha256 json_size j after ≡ ok r) same found)
                      (size_of ∙ whole)),
              )
        ]
        | inr single ↦ elim (linked_lem fresh whole good single) [
          | inl (e, failed) ↦ absurd (ground arith)
          | inr (b, e, right, long) ↦ (
            answer_offset total total p refl (sym (ap (λ x. x.0) e) ∙ h),
            rw e (
                file-Held producer_digest name key total b
                  (record s { files = upsert key b s.files })
                  (ground (arith, lookup-upsert key key b s.files)) right long),
          )
        ]
      ]
    ]
