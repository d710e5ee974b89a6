-- ===== src/Chunks/Examples.antt =====
-- Runs of the chunk store on a small file.
use session_search.Base.{
  ℕ, ◌≡◌, refl, ap, String, Bool, true, false, some, List, [], ◌∷◌, arith, lookup, is_digest,
  length, ℕ_discrete, codes, all_hex, split, string_dec, string_eq, upsert,
}
use session_search.Base.Result.{ok}
use session_search.Chunks.{
  Recipe, ChunkStore, Source, publish, put_blocks, put_recipe, put, chunk_size, recipe_of, verify,
  restore, iter_bytes, recipe, recipe_valid, chunks_valid, read_chunks,
}
use session_search.Chunks.Immutable.{Extends, Extends-refl, put-Extends}
use session_search.Chunks.Restore.{put-restore, restore-sha256}

abbrev name : String
name = "0123456789abcdef0123456789abcdef0123456789abcdef0123456789abcdef"

abbrev sha256 : List ℕ → String
sha256 content = name

abbrev json_size : Recipe → ℕ
json_size r = 100

abbrev room : ℕ → Bool
room n = true

abbrev bytes : List ℕ
bytes = 7 ∷ 8 ∷ 9 ∷ []

abbrev source : Source
source = record { size_before = 3; bytes = bytes; changed = false }

abbrev empty : ChunkStore
empty = record { chunks = []; recipes = [] }

abbrev full : ChunkStore
full = record {
  chunks = (name, bytes) ∷ [];
  recipes =
      (name, recipe_of sha256 json_size room bytes (record { digest = name; size = 3 } ∷ [])) ∷ [];
}

put_ends : put sha256 json_size room source (some name) empty ≡ (ok (name, 3), full)
unfolding put is_digest ℕ_discrete codes all_hex put_blocks split chunk_size publish lookup
    put_recipe string_dec upsert
put_ends = refl

put-Extends_example :
    Extends empty.chunks (put sha256 json_size room source (some name) empty).1.chunks
    × Extends empty.recipes (put sha256 json_size room source (some name) empty).1.recipes
put-Extends_example = put-Extends sha256 json_size room source (some name) empty

restored : restore sha256 json_size false name full ≡ ok bytes
unfolding restore iter_bytes recipe is_digest ℕ_discrete codes all_hex lookup string_dec
    recipe_valid chunks_valid chunk_size read_chunks
restored = refl

put-restore_example :
    (name ≡ sha256 bytes)
    × (3 ≡ length bytes)
    × (verify sha256 json_size name full ≡ true)
    × (restore sha256 json_size false name full ≡ ok bytes)
put-restore_example =
    put-restore sha256 json_size room source (some name) empty full name 3 (ap (λ r. r.0) put_ends)
      (λ cs h. omega arith) (rw put_ends (Extends-refl full.chunks))
      (rw put_ends (Extends-refl full.recipes))

restore-sha256_example :
    (sha256 bytes ≡ name)
    × (is_digest name ≡ true)
    × (r : Recipe) × (lookup name full.recipes ≡ some r)
    × (recipe_valid sha256 json_size name r ≡ true)
restore-sha256_example = restore-sha256 sha256 json_size name full bytes restored
