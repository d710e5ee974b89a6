-- ===== src/Chunks/Restore.antt =====
-- What `put` archives, `iter_bytes` gives back, `verify` accepts and `restore` writes, also after
-- later calls of `put`.
use session_search.Base.{
  ℕ, ◌+◌, ◌-◌, ◌*◌, ◌/◌, ◌≤◌, ◌<◌, ◌≡◌, refl, sym, ap, subst, ◌∙◌, String, Bool, true, false, not,
  inl, inr, Option, none, some, List, arith, ltb, ◌==◌, string_eq, nat_eq, bytes_eq, Bool-cases,
  Option-cases, length, lookup, is_digest, concat, concat-split, blocks,
}
use session_search.Base.Result.{Result, Result-cases, ok, err}
use session_search.Chunks.{
  Chunk, Recipe, ChunkStore, Source, recipe_eq, publish, put_blocks, put_recipe, put, recipe_of,
  max_size, max_recipe, chunk_size, chunk_size_pos, chunks_valid, recipe_valid, recipe, read_chunks,
  iter_bytes, verify, restore,
}
use session_search.Chunks.Immutable.{Extends, publish_ok, put_recipe-chunks}
use session_search.Chunks.RoundTrip.{
  Stored, Stored-Extends, split-Full, Full, read_chunks_lem, chunks_valid_lem, count_lem, ceiling,
  put_blocks-Stored,
}

module _ (sha256 : List ℕ → String) (json_size : Recipe → ℕ) where
  module _ (room : ℕ → Bool) where
    put_recipe_ok :
        (source : Source) (expected : Option String) (chunks : List Chunk) (s : ChunkStore)
        (key : String) (size : ℕ)
        → (put_recipe sha256 json_size room source expected chunks s).0 ≡ ok (key, size)
        → (key ≡ sha256 source.bytes)
          × (size ≡ length source.bytes)
          × (lookup key (put_recipe sha256 json_size room source expected chunks s).1.recipes
              ≡ some (recipe_of sha256 json_size room source.bytes chunks))
          × (is_digest key ≡ true)
    unfolding put_recipe
    put_recipe_ok source expected chunks s key size h =
        let r : Recipe = recipe_of sha256 json_size room source.bytes chunks in
        elim (Result-cases (publish room (json_size r) (sha256 source.bytes) r s.recipes).0) [
          | inr (e, failed) ↦ absurd (ground arith)
          | inl (_, done) ↦
              let there : (lookup (sha256 source.bytes)
                      (publish room (json_size r) (sha256 source.bytes) r s.recipes).1
                    ≡ some r)
                  × (is_digest (sha256 source.bytes) ≡ true) =
                publish_ok room (json_size r) (sha256 source.bytes) r s.recipes done in
              let same : key ≡ sha256 source.bytes = ground arith in
              (
                same,
                ground arith,
                subst
                    (λ k.
                      lookup k (put_recipe sha256 json_size room source expected chunks s).1.recipes
                      ≡ some r)
                    (sym same) (ground (arith, there.0)),
                subst (λ k. is_digest k ≡ true) (sym same) there.1,
              )
        ]

    put_ok :
        (source : Source) (expected : Option String) (s : ChunkStore)
        (blocks_put : Result (List Chunk) × List (String × List ℕ)) (key : String) (size : ℕ)
        → blocks_put ≡ put_blocks sha256 json_size room 0 (blocks chunk_size source.bytes) s.chunks
        → (put sha256 json_size room source expected s).0 ≡ ok (key, size)
        → (chunks : List Chunk) × (blocks_put.0 ≡ ok chunks)
          × (put sha256 json_size room source expected s
              ≡ put_recipe sha256 json_size room source expected chunks
                  (record s { chunks = blocks_put.1 }))
    unfolding put
    put_ok source expected s blocks_put key size b h =
        elim (Bool-cases (elim expected [ none ↦ false | some digest ↦ not (is_digest digest) ])) [
          | inl bad ↦ absurd (ground arith)
          | inr good ↦ elim (Bool-cases (ltb max_size source.size_before)) [
            | inl large ↦ absurd (ground arith)
            | inr fits ↦ elim (Result-cases blocks_put.0) [
              | inr (e, failed) ↦ absurd (ground arith)
              | inl (chunks, done) ↦ (chunks, done, ground arith)
            ]
          ]
        ]

  -- A recipe whose chunks are stored passes every check of `recipe`, and is read back.
  module _ (room : ℕ → Bool) (bytes : List ℕ) (cs : List Chunk) (s : ChunkStore) where
    recipe_valid_lem :
        Stored sha256 json_size s.chunks cs (blocks chunk_size bytes)
        → length bytes ≤ max_size
        → json_size (recipe_of sha256 json_size room bytes cs) ≤ max_recipe
        → recipe_valid sha256 json_size (sha256 bytes) (recipe_of sha256 json_size room bytes cs)
          ≡ true
    unfolding recipe_valid
    recipe_valid_lem stored small short =
        let full : Full sha256 json_size chunk_size (blocks chunk_size bytes) =
          split-Full sha256 json_size (length bytes) chunk_size bytes chunk_size_pos
            (omega arith) in
        let whole : concat (blocks chunk_size bytes) ≡ bytes =
          concat-split (length bytes) chunk_size bytes chunk_size_pos (omega arith) in
        let size : length (concat (blocks chunk_size bytes)) ≡ length bytes = ap length whole in
        let bounds : (length cs * chunk_size
              < length (concat (blocks chunk_size bytes)) + chunk_size)
            × (length (concat (blocks chunk_size bytes)) ≤ length cs * chunk_size) =
          count_lem sha256 json_size s.chunks cs (blocks chunk_size bytes) stored full in
        let count : length cs ≡ (length bytes + chunk_size - 1) / chunk_size =
          ceiling (length bytes) (length cs) (omega arith) (omega arith) in
        let valid : chunks_valid sha256 json_size 0 (length bytes) cs ≡ true =
          chunks_valid_lem sha256 json_size s.chunks 0 (length bytes) cs (blocks chunk_size bytes)
            stored full (omega arith) in
        ground (arith, count, valid, small, short)

    iter_bytes_lem :
        Stored sha256 json_size s.chunks cs (blocks chunk_size bytes)
        → length bytes ≤ max_size
        → json_size (recipe_of sha256 json_size room bytes cs) ≤ max_recipe
        → is_digest (sha256 bytes) ≡ true
        → lookup (sha256 bytes) s.recipes ≡ some (recipe_of sha256 json_size room bytes cs)
        → iter_bytes sha256 json_size (sha256 bytes) s
          ≡ record { given = blocks chunk_size bytes; outcome = ok tt }
    unfolding iter_bytes recipe
    iter_bytes_lem stored small short key there =
        let valid : recipe_valid sha256 json_size (sha256 bytes)
              (recipe_of sha256 json_size room bytes cs)
            ≡ true =
          recipe_valid_lem stored small short in
        let whole : concat (blocks chunk_size bytes) ≡ bytes =
          concat-split (length bytes) chunk_size bytes chunk_size_pos (omega arith) in
        let same : sha256 (concat (blocks chunk_size bytes)) == sha256 bytes ≡ true =
          rw whole (ground arith) in
        let read : read_chunks sha256 json_size cs s.chunks
            ≡ record { given = blocks chunk_size bytes; outcome = ok tt } =
          read_chunks_lem sha256 json_size s.chunks cs (blocks chunk_size bytes) stored in
        rw (iter_bytes, recipe, key, there, valid, read, read, same) refl

  module _ (room : ℕ → Bool) (source : Source) where
    -- What `put` has archived under a key, a store has that holds everything of the store after it.
    pub archived :
        (expected : Option String) (s t : ChunkStore) (key : String) (size : ℕ)
        → (put sha256 json_size room source expected s).0 ≡ ok (key, size)
        → ((cs : List Chunk)
            → (put_blocks sha256 json_size room 0 (blocks chunk_size source.bytes) s.chunks).0
              ≡ ok cs
            → json_size (recipe_of sha256 json_size room source.bytes cs) ≤ max_recipe)
        → Extends (put sha256 json_size room source expected s).1.chunks t.chunks
        → Extends (put sha256 json_size room source expected s).1.recipes t.recipes
        → (key ≡ sha256 source.bytes)
          × (size ≡ length source.bytes)
          × (iter_bytes sha256 json_size key t
              ≡ record { given = blocks chunk_size source.bytes; outcome = ok tt })
          × (r : Recipe) × (recipe sha256 json_size key t ≡ ok r)
          × (r.size ≡ length source.bytes)
    unfolding recipe
    archived expected s t key size h short chunks recipes =
        let parts : Result (List Chunk) × List (String × List ℕ) =
          put_blocks sha256 json_size room 0 (blocks chunk_size source.bytes) s.chunks in
        let whole : concat (blocks chunk_size source.bytes) ≡ source.bytes =
          concat-split (length source.bytes) chunk_size source.bytes chunk_size_pos (omega arith) in
        let (cs, done, as_recipe) = put_ok room source expected s parts key size refl h in
        let s' : ChunkStore = record s { chunks = parts.1 } in
        let stored : Stored sha256 json_size parts.1 cs (blocks chunk_size source.bytes)
            × (0 ≤ max_size → 0 + length (concat (blocks chunk_size source.bytes)) ≤ max_size) =
          put_blocks-Stored sha256 json_size room 0 (blocks chunk_size source.bytes) s.chunks cs
            done in
        let end : (key ≡ sha256 source.bytes)
            × (size ≡ length source.bytes)
            × (lookup key (put_recipe sha256 json_size room source expected cs s').1.recipes
                ≡ some (recipe_of sha256 json_size room source.bytes cs))
            × (is_digest key ≡ true) =
          put_recipe_ok room source expected cs s' key size (ap (λ p. p.0) (sym as_recipe) ∙ h) in
        let small : length source.bytes ≤ max_size =
          subst (λ bs. length bs ≤ max_size) whole (omega (arith, stored.1 (omega arith))) in
        let there : lookup key t.recipes ≡ some (recipe_of sha256 json_size room source.bytes cs) =
          recipes.at_key key (recipe_of sha256 json_size room source.bytes cs)
            (rw as_recipe end.2) in
        let kept : Stored sha256 json_size t.chunks cs (blocks chunk_size source.bytes) =
          Stored-Extends sha256 json_size cs (blocks chunk_size source.bytes) chunks (
            rw (as_recipe, put_recipe-chunks sha256 json_size room source expected cs s')
              stored.0) in
        let valid : recipe_valid sha256 json_size key
              (recipe_of sha256 json_size room source.bytes cs)
            ≡ true =
          subst
            (λ k.
              recipe_valid sha256 json_size k (recipe_of sha256 json_size room source.bytes cs)
              ≡ true)
            (sym end.0) (recipe_valid_lem room source.bytes cs t kept small (short cs done)) in
        (
          end.0,
          end.1,
          subst
              (λ k.
                iter_bytes sha256 json_size k t
                ≡ record { given = blocks chunk_size source.bytes; outcome = ok tt })
              (sym end.0)
              (iter_bytes_lem room source.bytes cs t kept small (short cs done)
                (subst (λ k. is_digest k ≡ true) end.0 end.3)
                (subst
                  (λ k. lookup k t.recipes ≡ some (recipe_of sha256 json_size room source.bytes cs))
                  end.0 there)),
          recipe_of sha256 json_size room source.bytes cs,
          rw (recipe, end.3, there, valid) refl,
          refl,
        )

    -- When put succeeds and the recipe is within its limit, it gives the digest and the size of the
    -- file, and every store that has at least the objects of the store after it verifies the file
    -- and restores exactly its bytes.
    pub put-restore :
        (expected : Option String) (s t : ChunkStore) (key : String) (size : ℕ)
        → (put sha256 json_size room source expected s).0 ≡ ok (key, size)
        → ((cs : List Chunk)
            → (put_blocks sha256 json_size room 0 (blocks chunk_size source.bytes) s.chunks).0
              ≡ ok cs
            → json_size (recipe_of sha256 json_size room source.bytes cs) ≤ max_recipe)
        → Extends (put sha256 json_size room source expected s).1.chunks t.chunks
        → Extends (put sha256 json_size room source expected s).1.recipes t.recipes
        → (key ≡ sha256 source.bytes)
          × (size ≡ length source.bytes)
          × (verify sha256 json_size key t ≡ true)
          × (restore sha256 json_size false key t ≡ ok source.bytes)
    unfolding verify restore
    put-restore expected s t key size h short chunks recipes =
        let (same, total, read, _, _, _) = archived expected s t key size h short chunks recipes in
        (
          same,
          total,
          rw (verify, read) refl,
          ap (λ r. elim r.outcome [ ok _ ↦ ok (concat r.given) | err e ↦ err e ]) read
              ∙ (ap ok (
                  concat-split (length source.bytes) chunk_size source.bytes chunk_size_pos
                    (omega arith))),
        )

  -- Whatever a store holds, bytes that restore writes have the digest that was asked for, which is
  -- a well-formed one with a stored recipe that passes every check.
  pub restore-sha256 :
      (key : String) (s : ChunkStore) (bytes : List ℕ)
      → restore sha256 json_size false key s ≡ ok bytes
      → (sha256 bytes ≡ key)
        × (is_digest key ≡ true)
        × (r : Recipe) × (lookup key s.recipes ≡ some r)
        × (recipe_valid sha256 json_size key r ≡ true)
  unfolding restore iter_bytes recipe
  restore-sha256 key s bytes h = elim (Bool-cases (is_digest key)) [
    | inr bad ↦ absurd (ground arith)
    | inl good ↦ elim (Option-cases (lookup key s.recipes)) [
      | inl none_there ↦ absurd (ground arith)
      | inr (r, found) ↦ elim (Bool-cases (recipe_valid sha256 json_size key r)) [
        | inr bad ↦ absurd (ground arith)
        | inl valid ↦ (ground arith, good, r, found, valid)
      ]
    ]
  ]
