-- ===== src/Checkpoints.antt =====
-- src/session_search/capture/checkpoints.py: the directory of `CheckpointCache` and its `load` and
-- `save`. Parameters: SHA-256, zlib and json, the identity of the parser, the free space of the
-- disk, the lock and the clock. A call holds its lock throughout.
pub mod Decode
pub mod Evict
pub mod Found
pub mod Lock
pub mod Saved
pub mod RoundTrip
mod Examples
use Prim.Native.String
use session_search.Base.{
  ℕ, zero, suc, ◌+◌, ◌-◌, ◌*◌, ◌≤◌, min, String, Bool, true, false, not, ◌&&◌, ◌||◌, Option, none,
  some, List, [], ◌∷◌, ◌++◌, if◌then◌else◌, ◌==◌, nat_eq, string_eq, bytes_eq, ltb, leb, length,
  take, drop, codes, all_hex, lookup, upsert, without, select,
}
use session_search.Base.Result.{Result, ok, err, value_error, os_error}
use session_search.Checkpoints.Decode.{ParseCheckpoint, Stored, max_decoded, decode}

pub record Entry : Type 0 where
  pub regular : Bool
  pub bytes : List ℕ
  pub mtime : ℕ

abbrev pub Directory : Type 0
Directory = List (String × Entry)

-- `re.fullmatch("[a-f0-9]{64}\\.cache", name)`
unfoldable pub is_cache : String → Bool
is_cache name = all_hex (take 64 (codes name)) && drop 64 (codes name) == codes ".cache"

-- `name.startswith(".checkpoint-")`
unfoldable pub is_staged : String → Bool
is_staged name = take 12 (codes name) == codes ".checkpoint-"

-- `_entries`
unfoldable pub entries : Directory → Result Directory
entries [] = ok []
entries ((name, e) ∷ dir) =
    let rest : Result Directory = entries dir in
    if not e.regular
    then err value_error
    else if name == ".lock"
    then rest
    else if is_cache name
    then elim rest [ err x ↦ err x | ok found ↦ ok ((name, e) ∷ found) ]
    else if is_staged name
    then rest
    else err value_error

abbrev pub file_name : String → String
file_name key = String.◌++◌ key ".cache"

unfoldable pub total_size : Directory → ℕ
total_size [] = 0
total_size ((name, e) ∷ dir) = length e.bytes + total_size dir

-- `sorted(entries, key=…st_mtime_ns)`, which keeps the order of equal times
unfoldable pub insert : String × Entry → Directory → Directory
insert p [] = p ∷ []
insert p (q ∷ dir) =
    let rest : Directory = insert p dir in if ltb q.1.mtime p.1.mtime then q ∷ rest else p ∷ q ∷ dir

unfoldable pub sorted : Directory → Directory
sorted [] = []
sorted (p ∷ dir) = insert p (sorted dir)

-- The loop of `save` over the entries, oldest first, with `total` and the directory.
unfoldable pub evict : ℕ → ℕ → String → Directory → ℕ → Directory → ℕ × Directory
evict budget needed target [] total dir = (total, dir)
evict budget needed target ((name, e) ∷ olds) total dir =
    let kept : ℕ × Directory = evict budget needed target olds total dir in
    let removed : ℕ × Directory =
      evict budget needed target olds (total - length e.bytes) (without name dir) in
    if leb (total + needed) budget then (total, dir) else if name == target then kept else removed

abbrev pub is_leftover : String × Entry → Bool
is_leftover p = is_staged p.0

abbrev pub stored : String → String → ParseCheckpoint → Stored
stored parser_identity key c = record {
  version = 1;
  parser = parser_identity;
  key = key;
  checkpoint = c;
}

abbrev pub encoded : (List ℕ → List ℕ) → (List ℕ → List ℕ) → List ℕ → List ℕ
encoded sha256 compress raw = sha256 raw ++ compress raw

-- `save`, from the lock on.
unfoldable pub replace : ℕ → ℕ → String → List ℕ → Directory → Directory → Bool × Directory
replace budget now target bytes found dir =
    let swept : Directory = select (λ p. not (is_leftover p)) dir in
    let (total, left) =
      evict budget (length bytes) target (sorted found) (total_size found) swept in
    if ltb budget (total + length bytes)
    then (false, left)
    else (true, upsert target (record { regular = true; bytes = bytes; mtime = now }) left)

abbrev pub lock_file : ℕ → Entry
lock_file now = record { regular = true; bytes = []; mtime = now }

-- `(self.root / ".lock").open("a")`, which creates the file or leaves it as it is.
unfoldable pub open_lock : ℕ → Directory → Directory
open_lock now dir = elim (lookup ".lock" dir) [
  | some e ↦ dir
  | none ↦ upsert ".lock" (lock_file now) dir
]

module _ (sha256 : List ℕ → List ℕ) (compress : List ℕ → List ℕ) (print : Stored → List ℕ)
    (parser_identity : String) where
  -- `save`; an error is caught and answered with False.
  unfoldable pub save :
      ℕ → ℕ → ℕ → Bool → String → Option ParseCheckpoint → Directory → Bool × Directory
  save budget free now locked key none dir = (false, dir)
  save budget free now locked key (some c) dir =
      let raw : List ℕ = print (stored parser_identity key c) in
      let bytes : List ℕ = encoded sha256 compress raw in
      let opened : Directory = open_lock now dir in
      elim (entries dir) [
        | err e ↦ (false, dir)
        | ok found ↦
            if ltb max_decoded (length raw)
            then (false, dir)
            else if ltb (min budget max_decoded) (length bytes)
            then (false, dir)
            else if ltb free (length bytes + 64 * 1024 * 1024)
            then (false, dir)
            else if locked
            then (false, opened)
            else elim (entries opened) [
              | err e ↦ (false, opened)
              | ok found' ↦ replace budget now (file_name key) bytes found' opened
            ]
      ]

-- `load`: the checkpoint, and the directory with the time of use.
module _ (base_name : String → String) (is_list : String → Bool)
    (parse_time : String → Result String) (sha256 : List ℕ → List ℕ)
    (decompress : ℕ → List ℕ → Option (List ℕ)) (parse : List ℕ → Option Stored)
    (parser_identity : String) where
  unfoldable pub load : ℕ → ℕ → String → Directory → Option ParseCheckpoint × Directory
  load budget now key dir = elim (entries dir) [
    | err e ↦ (none, dir)
    | ok found ↦ elim (lookup (file_name key) dir) [
      | none ↦ (none, dir)
      | some e ↦
          if ltb (min budget max_decoded) (length e.bytes)
          then (none, dir)
          else elim (decode base_name is_list parse_time sha256 decompress parse parser_identity
              e.bytes key) [
                | err x ↦ (none, dir)
                | ok c ↦ (some c, upsert (file_name key) (record e { mtime = now }) dir)
              ]
    ]
  ]
