-- ===== src/Chunks/Immutable.antt =====
-- Published objects stay as they are, whatever is put later and however it ends.
use session_search.Base.{
  ℕ, ◌+◌, ◌≡◌, ◌⊎◌, refl, ap, String, Bool, true, false, not, inl, inr, Option, none, some, List,
  [], ◌∷◌, arith, ltb, ◌==◌, Eq, string_eq, bytes_eq, Bool-cases, Option-cases, length, lookup,
  upsert, lookup-upsert, is_digest, blocks,
}
use session_search.Base.Result.{Result-cases, ok}
use session_search.Chunks.{
  Chunk, Recipe, ChunkStore, Source, recipe_eq, publish, put_blocks, put_recipe, put, recipe_of,
  max_size, chunk_size,
}

-- Everything that `a` holds, `b` holds too.
pub record Extends {V : Type 0} (a b : List (String × V)) : Type 0 where
  pub at_key : (k : String) (v : V) → lookup k a ≡ some v → lookup k b ≡ some v

pub Extends-refl : {V : Type 0} (a : List (String × V)) → Extends a a
Extends-refl a = record { at_key = λ k v h. h }

pub Extends-trans :
    {V : Type 0} {a b c : List (String × V)} → Extends a b → Extends b c → Extends a c
Extends-trans x y = record { at_key = λ k v h. y.at_key k v (x.at_key k v h) }

upsert-Extends :
    {V : Type 0} (key : String) (v : V) (a : List (String × V))
    → lookup key a ≡ none
    → Extends a (upsert key v a)
upsert-Extends key v a fresh = record {
  at_key = λ k w h. elim (Bool-cases (k == key)) [
    | inl e ↦ absurd (ground (arith, ap (λ x. lookup x a) (same k key e)))
    | inr e ↦ rw (lookup-upsert, e) h
  ];
}
  where
    same : (k j : String) → k == j ≡ true → k ≡ j
    same k j e = ground arith

module _ (room : ℕ → Bool) {V : Type 0} ⦃e : Eq V⦄ where
  pub publish-Extends :
      (size : ℕ) (key : String) (content : V) (objects : List (String × V))
      → Extends objects (publish room size key content objects).1
  unfolding publish
  publish-Extends size key content objects = elim (Bool-cases (is_digest key)) [
    | inr bad ↦ rw bad (Extends-refl objects)
    | inl good ↦ elim (Option-cases (lookup key objects)) [
      | inr (old, found) ↦ rw (good, found) (Extends-refl objects)
      | inl fresh ↦ elim (Bool-cases (room size)) [
        | inl space ↦ rw (good, fresh, space) (upsert-Extends key content objects fresh)
        | inr full ↦ rw (good, fresh, full) (Extends-refl objects)
      ]
    ]
  ]

  -- A successful publication has the content under the key.
  pub publish_ok :
      (size : ℕ) (key : String) (content : V) (objects : List (String × V))
      → (publish room size key content objects).0 ≡ ok tt
      → (lookup key (publish room size key content objects).1 ≡ some content)
        × (is_digest key ≡ true)
  unfolding publish
  publish_ok size key content objects h = ground (arith, lookup-upsert key key content objects)

module _ (sha256 : List ℕ → String) (json_size : Recipe → ℕ) (room : ℕ → Bool) where
  pub put_blocks-Extends :
      (size : ℕ) (parts : List (List ℕ)) (stored : List (String × List ℕ))
      → Extends stored (put_blocks sha256 json_size room size parts stored).1
  unfolding put_blocks
  put_blocks-Extends size [] stored = Extends-refl stored
  put_blocks-Extends size (content ∷ rest) stored =
      let first : Extends stored (publish room (length content) (sha256 content) content stored).1 =
        publish-Extends room (length content) (sha256 content) content stored in
      let stored' : List (String × List ℕ) =
        (publish room (length content) (sha256 content) content stored).1 in
      let both : Extends stored
          (put_blocks sha256 json_size room (size + length content) rest stored').1 =
        Extends-trans first (put_blocks-Extends (size + length content) rest stored') in
      elim (Bool-cases (ltb max_size (size + length content))) [
        | inl large ↦ rw large (Extends-refl stored)
        | inr fits ↦
            elim (Result-cases (publish room (length content) (sha256 content) content stored).0) [
              | inr (e, failed) ↦ rw (fits, failed) first
              | inl (_, done) ↦
                  elim (Result-cases
                    (put_blocks sha256 json_size room (size + length content) rest stored').0) [
                      | inl (chunks, later) ↦ rw (fits, done, later) both
                      | inr (e, later) ↦ rw (fits, done, later) both
                    ]
            ]
      ]

  pub put_recipe-chunks :
      (source : Source) (expected : Option String) (chunks : List Chunk) (s : ChunkStore)
      → (put_recipe sha256 json_size room source expected chunks s).1.chunks ≡ s.chunks
  unfolding put_recipe
  put_recipe-chunks source expected chunks s = ground arith

  put_recipe-recipes :
      (source : Source) (expected : Option String) (chunks : List Chunk) (s : ChunkStore)
      → ((put_recipe sha256 json_size room source expected chunks s).1.recipes ≡ s.recipes)
        ⊎ ((put_recipe sha256 json_size room source expected chunks s).1.recipes
            ≡ (publish room
                (json_size (recipe_of sha256 json_size room source.bytes chunks))
                (sha256 source.bytes)
                (recipe_of sha256 json_size room source.bytes chunks)
                s.recipes).1)
  unfolding put_recipe
  put_recipe-recipes source expected chunks s = ground arith

  put_recipe-Extends :
      (source : Source) (expected : Option String) (chunks : List Chunk) (s : ChunkStore)
      → Extends s.recipes (put_recipe sha256 json_size room source expected chunks s).1.recipes
  put_recipe-Extends source expected chunks s =
      let r : Recipe = recipe_of sha256 json_size room source.bytes chunks in
      elim (put_recipe-recipes source expected chunks s) [
        | inl e ↦ rw e (Extends-refl s.recipes)
        | inr e ↦ rw e (publish-Extends room (json_size r) (sha256 source.bytes) r s.recipes)
      ]

  abbrev stored_after : Source → ChunkStore → List (String × List ℕ)
  stored_after source s =
      (put_blocks sha256 json_size room 0 (blocks chunk_size source.bytes) s.chunks).1

  -- How `put` may end: before any block is read, after some blocks, or with the recipe.
  put-cases :
      (source : Source) (expected : Option String) (s : ChunkStore)
      → ((put sha256 json_size room source expected s).1 ≡ s)
        ⊎ (((put sha256 json_size room source expected s).1
              ≡ record s { chunks = stored_after source s })
            ⊎ ((chunks : List Chunk) × ((put sha256 json_size room source expected s).1
                  ≡ (put_recipe sha256 json_size room source expected chunks
                      (record s { chunks = stored_after source s })).1)))
  unfolding put
  put-cases source expected s =
      elim (Result-cases
        (put_blocks sha256 json_size room 0 (blocks chunk_size source.bytes) s.chunks).0) [
          | inl (chunks, done) ↦
              elim (Bool-cases
                (elim expected [ none ↦ false | some digest ↦ not (is_digest digest) ])) [
                  | inl bad ↦ inl (rw bad refl)
                  | inr good ↦ elim (Bool-cases (ltb max_size source.size_before)) [
                    | inl large ↦ inl (rw (good, large) refl)
                    | inr fits ↦ inr (inr (chunks, rw (good, fits, done) refl))
                  ]
                ]
          | inr (e, failed) ↦
              elim (Bool-cases
                (elim expected [ none ↦ false | some digest ↦ not (is_digest digest) ])) [
                  | inl bad ↦ inl (rw bad refl)
                  | inr good ↦ elim (Bool-cases (ltb max_size source.size_before)) [
                    | inl large ↦ inl (rw (good, large) refl)
                    | inr fits ↦ inr (inl (rw (good, fits, failed) refl))
                  ]
                ]
        ]

  -- Whatever put ends with, every chunk and every recipe that was stored before is stored after it,
  -- unchanged.
  pub put-Extends :
      (source : Source) (expected : Option String) (s : ChunkStore)
      → Extends s.chunks (put sha256 json_size room source expected s).1.chunks
        × Extends s.recipes (put sha256 json_size room source expected s).1.recipes
  put-Extends source expected s =
      let stored : Extends s.chunks (stored_after source s) =
        put_blocks-Extends 0 (blocks chunk_size source.bytes) s.chunks in
      elim (put-cases source expected s) [
        | inl e ↦ rw e (Extends-refl s.chunks, Extends-refl s.recipes)
        | inr (inl e) ↦ rw e (stored, Extends-refl s.recipes)
        | inr (inr (chunks, e)) ↦
            rw (e, put_recipe-chunks)
              (
                stored,
                put_recipe-Extends source expected chunks
                    (record s { chunks = stored_after source s }),
              )
      ]
