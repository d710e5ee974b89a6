-- ===== src/Transfers.antt =====
-- src/session_search/storage/transfers.py: resumable uploads of immutable objects, over the layouts
-- of src/session_search/storage/objects.py, and the loop of `_upload_object` in
-- src/session_search/interfaces/client.py. Parameters: `sha256`, the length of a recipe's JSON, the
-- digest of a producer's name, the admission to the staging area and the room on the disk. Every
-- call holds its locks throughout; an object that another producer links in between is a parameter.
pub mod Complete
pub mod Append
pub mod Upload
mod Examples
use Prim.Native.String
use session_search.Base.{
  ℕ, zero, suc, ◌+◌, ◌-◌, ◌*◌, String, Bool, true, false, not, ◌&&◌, ◌||◌, Option, none, some, List,
  [], ◌∷◌, ◌++◌, min, leb, ltb, if◌then◌else◌, ◌==◌, Eq, nat_eq, string_eq, length, take, drop,
  lookup, upsert, without, is_digest,
}
use session_search.Base.Result.{
  Result, ok, err, Error, value_error, os_error, runtime_error, offset_conflict,
}
use session_search.Chunks.{Recipe, ChunkStore, Source}
use session_search.Chunks

abbrev pub max_chunk : ℕ
max_chunk = 1024 * 1024

-- `RawTransfers.__init__`: the namespace is `raw` or that of the revisions.
pub record Setting : Type 0 where
  pub raw : Bool
  pub chunked : Bool
  pub max_size : ℕ

pub record State : Type 0 where
  pub partials : List (String × List ℕ)
  pub files : List (String × List ℕ)
  pub shared : ChunkStore

pub record Progress : Type 0 where
  pub complete : Bool
  pub offset : ℕ

-- What a call meets: admission to the staging area, room on the disk, whether the staged file
-- changes while it is cut into chunks, and an object that another producer links meanwhile.
pub record Surroundings : Type 0 where
  pub admission : ℕ → Result (Unit {0})
  pub room : ℕ → Bool
  pub changed : Bool
  pub linked : Option (List ℕ)

module _ (sha256 : List ℕ → String) (json_size : Recipe → ℕ) (setting : Setting) where
  -- `_completed_path`: whether either layout has the object.
  unfoldable pub completed : String → State → Bool
  completed key s = elim (lookup key s.files) [
    | some _ ↦ true
    | none ↦ setting.raw && elim (lookup key s.shared.recipes) [ some _ ↦ true | none ↦ false ]
  ]

  -- `ObjectStore.verify`
  unfoldable pub verify : String → State → Bool
  verify key s = elim (lookup key s.files) [
    | some content ↦ sha256 content == key
    | none ↦ setting.raw && Chunks.verify sha256 json_size key s.shared
  ]

  -- `ObjectStore.size`
  unfoldable pub size : String → State → Result ℕ
  size key s = elim (lookup key s.files) [
    | some content ↦ ok (length content)
    | none ↦
        if setting.raw
        then elim (Chunks.recipe sha256 json_size key s.shared) [ ok r ↦ ok r.size | err e ↦ err e ]
        else err os_error
  ]

  -- The object and the length that a completed upload must have.
  unfoldable pub matches : String → ℕ → State → Bool
  matches key total s = verify key s && elim (size key s) [ ok n ↦ n == total | err e ↦ false ]

  module _ (producer_digest : String → String) where
    abbrev pub stem : String → String → String
    stem producer key = String.◌++◌ (producer_digest producer) (String.◌++◌ "-" key)

    unfoldable pub staged : String → State → List ℕ
    staged name s = elim (lookup name s.partials) [ some content ↦ content | none ↦ [] ]

    -- The partial file is unlinked.
    abbrev pub retire : String → State → State
    retire name s = record s { partials = without name s.partials }

    -- `_append` of a chunk that completes the file.
    unfoldable pub finish :
        Surroundings → String → String → ℕ → List ℕ → State → Result Progress × State
    finish around name key total content s =
        let done : Result Progress = ok (record { complete = true; offset = length content }) in
        let source : Source = record {
          size_before = length content;
          bytes = content;
          changed = around.changed;
        } in
        let (put, shared) = Chunks.put sha256 json_size around.room source (some key) s.shared in
        let published : State = record s { shared = shared } in
        let link : List ℕ → State = λ b. record s { files = upsert key b s.files } in
        if not (sha256 content == key)
        then (err value_error, s)
        else if setting.chunked
        then elim put [
          | err e ↦ (err e, published)
          | ok (_, n) ↦
              if n == total then (done, retire name published) else (err value_error, published)
        ]
        else elim around.linked [
          | none ↦ (done, retire name (link content))
          | some other ↦
              if sha256 other == key && length other == total
              then (done, retire name (link other))
              else (err value_error, link other)
        ]

    -- `RawTransfers._append`
    unfoldable pub append :
        Surroundings → String → String → ℕ → ℕ → List ℕ → State → Result Progress × State
    append around producer key offset total chunk s =
        let name : String = stem producer key in
        let content : List ℕ = staged name s ++ chunk in
        let observed : ℕ = length (staged name s) in
        let written : State = record s { partials = upsert name content s.partials } in
        let finished : Result Progress × State = finish around name key total content written in
        if not (leb offset total && (leb total setting.max_size && leb (length chunk) max_chunk))
        then (err value_error, s)
        else if ltb total (offset + length chunk) || (length chunk == 0 && not (offset == total))
        then (err value_error, s)
        else if not (is_digest key)
        then (err value_error, s)
        else if completed key s
        then if matches key total s
          then (ok (record { complete = true; offset = total }), retire name s)
          else (err value_error, s)
        else if not (offset == observed)
        then (err offset_conflict, s)
        else elim (around.admission (length chunk)) [
          | err e ↦ (err e, s)
          | ok _ ↦
              if not (around.room (length chunk))
              then (err os_error, s)
              else if observed + length chunk == total
              then finished
              else (ok (record { complete = false; offset = observed + length chunk }), written)
        ]

    -- `RawTransfers.status`. `free`: no writer holds the partial file and the store is not fenced.
    unfoldable pub status : Bool → String → String → State → Result Progress × State
    status free producer key s =
        let name : String = stem producer key in
        let reclaimed : State = if free then retire name s else s in
        if not (is_digest key)
        then (err value_error, s)
        else if completed key s
        then if verify key s
          then elim (size key s) [
            | ok n ↦ (ok (record { complete = true; offset = n }), reclaimed)
            | err e ↦ (err e, reclaimed)
          ]
          else (err value_error, s)
        else (ok (record { complete = false; offset = length (staged name s) }), s)
