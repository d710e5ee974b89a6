-- ===== src/Chunks.antt =====
-- src/session_search/storage/chunks.py: raw files as recipes over immutable shared chunks. A
-- recipe is kept as the value that its canonical JSON stands for. Parameters: `sha256`, the length
-- of a recipe's JSON, and whether the disk has room for a number of bytes. Paths are not symbolic
-- links, and a published file is not removed.
pub mod Immutable
pub mod RoundTrip
pub mod Restore
mod Examples
use session_search.Base.{
  ℕ, zero, suc, ◌+◌, ◌-◌, ◌*◌, ◌/◌, ◌<◌, String, Bool, true, false, not, ◌&&◌, ◌||◌, Option, none,
  some, List, [], ◌∷◌, arith, min, leb, ltb, if◌then◌else◌, ◌==◌, Eq, nat_eq, string_eq, string_dec,
  ℕ_discrete, bytes_eq, length, lookup, upsert, concat, blocks, is_digest,
}
use session_search.Base.Result.{Result, ok, err, Error, value_error, os_error}

-- Shut in proofs, which need of it that it is positive only.
unfoldable pub chunk_size : ℕ
chunk_size = 4 * 1024 * 1024

pub chunk_size_pos : 0 < chunk_size
unfolding chunk_size
chunk_size_pos = omega arith

abbrev pub max_size : ℕ
max_size = 32 * 1024 * 1024 * 1024

abbrev pub max_recipe : ℕ
max_recipe = 1024 * 1024

pub record Chunk : Type 0 where
  pub digest : String
  pub size : ℕ

pub record Recipe : Type 0 where
  pub version : ℕ
  pub digest : String
  pub size : ℕ
  pub chunk_size : ℕ
  pub chunks : List Chunk

pub recipe_dec : Discrete Recipe
recipe_dec = hlevel (ℕ_discrete, string_dec)

instance abbrev pub recipe_eq : Eq Recipe
recipe_eq = record { dec = recipe_dec }

pub record ChunkStore : Type 0 where
  pub chunks : List (String × List ℕ)
  pub recipes : List (String × Recipe)

-- A file to archive: its size when it is opened, the bytes that are read, and whether its status
-- has changed when they have been.
pub record Source : Type 0 where
  pub size_before : ℕ
  pub bytes : List ℕ
  pub changed : Bool

-- The blocks that a reader has been given, and how the reading ended.
pub record Reading : Type 0 where
  pub given : List (List ℕ)
  pub outcome : Result (Unit {0})

module _ (room : ℕ → Bool) where
  -- `_publish`: an object that exists must have the same content.
  unfoldable pub publish :
      {V : Type 0} ⦃e : Eq V⦄
      → ℕ
      → String
      → V
      → List (String × V)
      → Result (Unit {0}) × List (String × V)
  publish size key content objects =
      if is_digest key
      then elim (lookup key objects) [
        | some old ↦ (if old == content then ok tt else err value_error, objects)
        | none ↦ if room size then (ok tt, upsert key content objects) else (err os_error, objects)
      ]
      else (err value_error, objects)

module _ (sha256 : List ℕ → String) (json_size : Recipe → ℕ) where
  module _ (room : ℕ → Bool) where
    -- The loop of `put` over the blocks that are read; `size` is what has been read before.
    unfoldable pub put_blocks :
        ℕ → List (List ℕ) → List (String × List ℕ) → Result (List Chunk) × List (String × List ℕ)
    put_blocks size [] stored = (ok [], stored)
    put_blocks size (content ∷ rest) stored =
        let (published, stored') = publish room (length content) (sha256 content) content stored in
        let later : Result (List Chunk) × List (String × List ℕ) =
          put_blocks (size + length content) rest stored' in
        if ltb max_size (size + length content) then (err value_error, stored) else elim published [
          | err e ↦ (err e, stored')
          | ok _ ↦ elim later.0 [
            | err e ↦ (err e, later.1)
            | ok chunks ↦
                (ok (record { digest = sha256 content; size = length content } ∷ chunks), later.1)
          ]
        ]

    abbrev pub recipe_of : List ℕ → List Chunk → Recipe
    recipe_of bytes chunks = record {
      version = 1;
      digest = sha256 bytes;
      size = length bytes;
      chunk_size = chunk_size;
      chunks = chunks;
    }

    -- The end of `put`, when the blocks have been published.
    unfoldable pub put_recipe :
        Source → Option String → List Chunk → ChunkStore → Result (String × ℕ) × ChunkStore
    put_recipe source expected chunks s =
        let key : String = sha256 source.bytes in
        let recipe : Recipe = recipe_of source.bytes chunks in
        let (published, recipes) = publish room (json_size recipe) key recipe s.recipes in
        if source.changed
        then (err value_error, s)
        else if elim expected [ none ↦ false | some digest ↦ not (key == digest) ]
        then (err value_error, s)
        else elim published [
          | err e ↦ (err e, record s { recipes = recipes })
          | ok _ ↦ (ok (key, length source.bytes), record s { recipes = recipes })
        ]

    -- `ChunkStore.put`
    unfoldable pub put : Source → Option String → ChunkStore → Result (String × ℕ) × ChunkStore
    put source expected s =
        let (chunks, stored) = put_blocks 0 (blocks chunk_size source.bytes) s.chunks in
        if elim expected [ none ↦ false | some digest ↦ not (is_digest digest) ]
        then (err value_error, s)
        else if ltb max_size source.size_before
        then (err value_error, s)
        else elim chunks [
          | err e ↦ (err e, record s { chunks = stored })
          | ok list ↦ put_recipe source expected list (record s { chunks = stored })
        ]

  -- The loop of `recipe` over the chunks, from index `i`.
  unfoldable pub chunks_valid : ℕ → ℕ → List Chunk → Bool
  chunks_valid i size [] = true
  chunks_valid i size (c ∷ cs) =
      leb (i * chunk_size) size
      && (c.size == min chunk_size (size - i * chunk_size)
          && (is_digest c.digest && chunks_valid (suc i) size cs))

  unfoldable pub recipe_valid : String → Recipe → Bool
  recipe_valid key r =
      leb (json_size r) max_recipe
      && (r.version == 1
          && (r.digest == key
              && (r.chunk_size == chunk_size
                  && (leb r.size max_size
                      && (length r.chunks == (r.size + chunk_size - 1) / chunk_size
                          && chunks_valid 0 r.size r.chunks)))))

  -- `ChunkStore.recipe`
  unfoldable pub recipe : String → ChunkStore → Result Recipe
  recipe key s =
      if is_digest key
      then elim (lookup key s.recipes) [
        | none ↦ err os_error
        | some r ↦ if recipe_valid key r then ok r else err value_error
      ]
      else err value_error

  -- The loop of `iter_bytes`: every chunk is verified before it is given.
  unfoldable pub read_chunks : List Chunk → List (String × List ℕ) → Reading
  read_chunks [] stored = record { given = []; outcome = ok tt }
  read_chunks (c ∷ cs) stored =
      let rest : Reading = read_chunks cs stored in
      elim (lookup c.digest stored) [
        | none ↦ record { given = []; outcome = err os_error }
        | some content ↦
            if length content == c.size && sha256 content == c.digest
            then record { given = content ∷ rest.given; outcome = rest.outcome }
            else record { given = []; outcome = err value_error }
      ]

  -- `ChunkStore.iter_bytes`
  unfoldable pub iter_bytes : String → ChunkStore → Reading
  iter_bytes key s = elim (recipe key s) [
    | err e ↦ record { given = []; outcome = err e }
    | ok r ↦
        let read : Reading = read_chunks r.chunks s.chunks in
        elim read.outcome [
          | err e ↦ read
          | ok _ ↦
              if sha256 (concat read.given) == key
              then read
              else record read { outcome = err value_error }
        ]
  ]

  -- `ChunkStore.verify`
  unfoldable pub verify : String → ChunkStore → Bool
  verify key s = elim ((iter_bytes key s).outcome) [ ok _ ↦ true | err e ↦ false ]

  -- `ChunkStore.restore`: the content of the new file. It is linked when it is complete only.
  unfoldable pub restore : Bool → String → ChunkStore → Result (List ℕ)
  restore destination_exists key s =
      if destination_exists then err os_error else elim ((iter_bytes key s).outcome) [
        | ok _ ↦ ok (concat ((iter_bytes key s).given))
        | err e ↦ err e
      ]
