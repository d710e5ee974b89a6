-- ===== src/Maintenance/Examples.antt =====
-- An old partial file goes with its lock, and a new one stays.
use session_search.Base.{ℕ, ◌-◌, Bool, true, false, none, some, [], ◌∷◌}
use session_search.Maintenance.{Name, name_eq, File, Root, Archive, Directory, expire_transfers}
use session_search.Maintenance.Removed.{Kept}
use session_search.Maintenance.Kept.{expire_transfers-Kept}

abbrev file : ℕ → ℕ → File
file size mtime = record { regular = true; nlink = 1; size = size; mtime = mtime; inode = mtime }

abbrev root : Root
root = record {
  has_catalog = true;
  has_marker = false;
  writers_locked = false;
  transfers = some (
      (Name.part "laptop" "old", file 9 100)
      ∷ (Name.lock "laptop" "old", file 0 100)
      ∷ (Name.part "laptop" "new", file 5 400000)
      ∷ []);
  revision_transfers = none;
}

abbrev archive : Archive
archive = record { raw_objects = "done" ∷ []; recipes = []; upload_objects = []; raw_sources = [] }

abbrev unlocked : Directory → Name → Bool
unlocked d name = false

expire_transfers-Kept_example :
    Kept archive unlocked true
      (400000 - 172800)
      root
      (expire_transfers archive unlocked 400000 172800 true 10 root).1
expire_transfers-Kept_example = expire_transfers-Kept archive unlocked 400000 172800 true 10 root
