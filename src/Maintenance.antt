-- ===== src/Maintenance.antt =====
-- src/session_search/storage/transfer_maintenance.py: `expire_transfers` over the two directories of
-- staged uploads. The global writer lease is held throughout. The age limit is in whole seconds.
-- Parameters: the clock, and the locks that others hold.
pub mod Removed
pub mod Kept
mod Examples
use session_search.Base.{
  ℕ, zero, suc, ◌+◌, ◌-◌, ◌*◌, ◌≤◌, String, Bool, true, false, not, ◌&&◌, ◌||◌, Option, none, some,
  List, [], ◌∷◌, ◌++◌, if◌then◌else◌, ◌==◌, Eq, nat_eq, string_eq, string_dec, ltb, leb, lookup,
  without, contains,
}
use session_search.Base.Result.{Result, ok, err, Error, value_error, os_error, permission_error}

-- `PART`, `LOCK` and other names: a partial file and its lock file share their producer and key.
pub data Name : Type 0 where
  part lock : String → String → Name
  other : String → Name

pub name_dec : Discrete Name
name_dec = hlevel string_dec

instance abbrev pub name_eq : Eq Name
name_eq = record { dec = name_dec }

pub record File : Type 0 where
  pub regular : Bool
  pub nlink : ℕ
  pub size : ℕ
  pub mtime : ℕ
  pub inode : ℕ

abbrev pub Files : Type 0
Files = List (Name × File)

-- The directories; a missing one is none.
pub record Root : Type 0 where
  pub has_catalog : Bool
  pub has_marker : Bool
  pub writers_locked : Bool
  pub transfers : Option Files
  pub revision_transfers : Option Files

-- The two namespaces: `transfers` and `revision-transfers`.
pub data Directory : Type 0 where
  raw revision : Directory

pub record Found : Type 0 where
  pub directory : Directory
  pub name : Name
  pub info : File

pub data Outcome : Type 0 where
  planned pruned active_writer scan_limit : Outcome

pub record Counts : Type 0 where
  pub scanned_entries : ℕ
  pub eligible_files : ℕ
  pub eligible_bytes : ℕ
  pub removed_files : ℕ
  pub removed_bytes : ℕ
  pub skipped_files : ℕ
  pub eligible_locks : ℕ
  pub removed_locks : ℕ

abbrev pub no_counts : Counts
no_counts = record {
  scanned_entries = 0;
  eligible_files = 0;
  eligible_bytes = 0;
  removed_files = 0;
  removed_bytes = 0;
  skipped_files = 0;
  eligible_locks = 0;
  removed_locks = 0;
}

abbrev pub files_of : Directory → Root → Files
files_of Directory.raw r = elim r.transfers [ none ↦ [] | some files ↦ files ]
files_of Directory.revision r = elim r.revision_transfers [ none ↦ [] | some files ↦ files ]

-- `os.unlink(name, dir_fd=directory_fd)`
unfoldable pub unlink : Directory → Name → Root → Root
unlink Directory.raw name r = record r {
  transfers = elim r.transfers [ none ↦ none | some files ↦ some (without name files) ];
}
unlink Directory.revision name r = record r {
  revision_transfers = elim r.revision_transfers [
    | none ↦ none
    | some files ↦ some (without name files)
  ];
}

abbrev pub plain : File → Bool
plain f = f.regular && f.nlink == 1

abbrev pub missing : Name → Files → Bool
missing name files = elim (lookup name files) [ none ↦ true | some f ↦ false ]

pub record Scan : Type 0 where
  pub scanned : ℕ
  pub skipped : ℕ
  pub candidates : List Found
  pub orphan_locks : List Found

-- One entry of the scan.
unfoldable pub scan_entry : ℕ → Directory → Files → Name → File → Scan → Scan
scan_entry cutoff directory files (Name.lock producer key) f s =
    if plain f && (f.size == 0 && (ltb f.mtime cutoff && missing (Name.part producer key) files))
    then record s {
      orphan_locks =
          s.orphan_locks
          ++ record { directory = directory; name = Name.lock producer key; info = f } ∷ [];
    }
    else s
scan_entry cutoff directory files (Name.part producer key) f s =
    if not (plain f)
    then record s { skipped = suc s.skipped }
    else if ltb f.mtime cutoff
    then record s {
      candidates =
          s.candidates
          ++ record { directory = directory; name = Name.part producer key; info = f } ∷ [];
    }
    else s
scan_entry cutoff directory files (Name.other name) f s = s

-- The scan of a directory; False when the limit is met.
unfoldable pub scan_files : ℕ → ℕ → Directory → Files → Files → Scan → Bool × Scan
scan_files limit cutoff directory files [] s = (true, s)
scan_files limit cutoff directory files ((name, f) ∷ rest) s =
    let next : Scan =
      scan_entry cutoff directory files name f (record s { scanned = suc s.scanned }) in
    let later : Bool × Scan = scan_files limit cutoff directory files rest next in
    if leb limit s.scanned then (false, s) else later

abbrev pub counts_of : Scan → Counts
counts_of s = record no_counts { scanned_entries = s.scanned; skipped_files = s.skipped }

abbrev pub start_scan : Scan
start_scan = record { scanned = 0; skipped = 0; candidates = []; orphan_locks = [] }

-- The scan of both directories.
unfoldable pub scan_root : ℕ → ℕ → Root → Bool × Scan
scan_root limit cutoff r =
    let (complete, s) =
      scan_files limit cutoff Directory.raw (files_of Directory.raw r) (files_of Directory.raw r)
        start_scan in
    let both : Bool × Scan =
      scan_files limit cutoff Directory.revision (files_of Directory.revision r)
        (files_of Directory.revision r) s in
    if complete then both else (false, s)

-- The keys of published objects and recipes, and the digests in `raw_sources`.
pub record Archive : Type 0 where
  pub raw_objects : List String
  pub recipes : List String
  pub upload_objects : List String
  pub raw_sources : List String

unfoldable pub published : Archive → Directory → String → Bool
published a Directory.raw key = contains a.raw_objects key || contains a.recipes key
published a Directory.revision key = contains a.upload_objects key

unfoldable pub referenced : Archive → Directory → String → Bool
referenced a Directory.raw key = contains a.raw_sources key
referenced a Directory.revision key = false

module _ (archive : Archive) (locked : Directory → Name → Bool) where
  -- One candidate; the counts and the root after it, or FileNotFoundError.
  unfoldable pub expire_part :
      Bool → Directory → String → String → File → Counts → Root → Result (Counts × Root)
  expire_part apply directory producer key info c r =
      let skipped : Counts = record c { skipped_files = suc c.skipped_files } in
      if published archive directory key || referenced archive directory key
      then ok (skipped, r)
      else elim (lookup (Name.lock producer key) (files_of directory r)) [
        | none ↦ ok (skipped, r)
        | some l ↦
            if not l.regular || locked directory (Name.lock producer key)
            then ok (skipped, r)
            else elim (lookup (Name.part producer key) (files_of directory r)) [
              | none ↦ err os_error
              | some current ↦
                  if plain current
                    && (current.inode == info.inode
                        && (current.size == info.size && current.mtime == info.mtime))
                  then ok (
                    record c {
                      eligible_locks = suc c.eligible_locks;
                      eligible_files = suc c.eligible_files;
                      eligible_bytes = c.eligible_bytes + current.size;
                      removed_files = if apply then suc c.removed_files else c.removed_files;
                      removed_bytes =
                          if apply then c.removed_bytes + current.size else c.removed_bytes;
                      removed_locks = if apply then suc c.removed_locks else c.removed_locks;
                    },
                    if apply
                        then unlink directory (Name.lock producer key)
                            (unlink directory (Name.part producer key) r)
                        else r,
                  )
                  else ok (skipped, r)
            ]
      ]

  unfoldable pub expire : Bool → Found → Counts → Root → Result (Counts × Root)
  expire apply found c r = elim found.name [
    | Name.other name ↦ ok (c, r)
    | Name.lock producer key ↦ ok (c, r)
    | Name.part producer key ↦ expire_part apply found.directory producer key found.info c r
  ]

  -- One orphan lock.
  unfoldable pub expire_lock : Bool → Found → Counts → Root → Counts × Root
  expire_lock apply found c r = elim (lookup found.name (files_of found.directory r)) [
    | none ↦ (c, r)
    | some current ↦
        if locked found.directory found.name
        then (c, r)
        else if not (plain current)
            || not (
                current.size == 0
                && (current.inode == found.info.inode && current.mtime == found.info.mtime))
        then (c, r)
        else (
          record c {
            eligible_locks = suc c.eligible_locks;
            removed_locks = if apply then suc c.removed_locks else c.removed_locks;
          },
          if apply then unlink found.directory found.name r else r,
        )
  ]

  unfoldable pub expire_all : Bool → List Found → Counts → Root → Result Counts × Root
  expire_all apply [] c r = (ok c, r)
  expire_all apply (found ∷ rest) c r = elim (expire apply found c r) [
    | err e ↦ (err e, r)
    | ok (c', r') ↦ expire_all apply rest c' r'
  ]

  unfoldable pub expire_locks : Bool → List Found → Counts → Root → Counts × Root
  expire_locks apply [] c r = (c, r)
  expire_locks apply (found ∷ rest) c r =
      let (c', r') = expire_lock apply found c r in expire_locks apply rest c' r'

  -- The removals, behind the scan.
  unfoldable pub expire_scan : Bool → Scan → Root → Result (Outcome × Counts) × Root
  expire_scan apply s r =
      let (expired, left) = expire_all apply s.candidates (counts_of s) r in
      elim expired [
        | err e ↦ (err e, left)
        | ok c ↦
            let (counts, last) = expire_locks apply s.orphan_locks c left in
            (ok (if apply then Outcome.pruned else Outcome.planned, counts), last)
      ]

  -- `expire_transfers`
  unfoldable pub expire_transfers : ℕ → ℕ → Bool → ℕ → Root → Result (Outcome × Counts) × Root
  expire_transfers now older_than apply limit r =
      let (complete, s) = scan_root limit (now - older_than) r in
      if ltb older_than 86400 || (ltb limit 1 || (ltb 1000000 limit || not r.has_catalog))
      then (err value_error, r)
      else if r.has_marker
      then (err permission_error, r)
      else if r.writers_locked
      then (ok (Outcome.active_writer, no_counts), r)
      else if complete
      then expire_scan apply s r
      else (ok (Outcome.scan_limit, counts_of s), r)
