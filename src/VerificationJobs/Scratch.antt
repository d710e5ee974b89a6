-- ===== src/VerificationJobs/Scratch.antt =====
-- Scratch directories of verification jobs, and `cleanup_scratch`.
use session_search.Base.{
  ℕ, suc, String, Bool, true, false, not, ◌||◌, Option, none, some, List, [], ◌∷◌, if◌then◌else◌,
  ◌==◌, Eq, string_eq, string_dec, lookup, without,
}

-- A path: its parent, its name, and whether it is absolute.
pub record Place : Type 0 where
  pub parent : String
  pub name : String
  pub absolute : Bool

pub bool_dec : Discrete Bool
bool_dec = hlevel

pub place_dec : Discrete Place
place_dec = hlevel (string_dec, bool_dec)

instance abbrev pub place_eq : Eq Place
place_eq = record { dec = place_dec }

-- A child that is not the marker; it is staged if it is a plain file of `write_record`.
pub record Child : Type 0 where
  pub name : String
  pub staged : Bool

-- The marker `owner.json` names a job.
pub record Scratch : Type 0 where
  pub symlink : Bool
  pub marker : Option String
  pub children : List Child

abbrev pub Disk : Type 0
Disk = List (Place × Scratch)

abbrev pub is_symlink : Place → Disk → Bool
is_symlink place disk = elim (lookup place disk) [ none ↦ false | some d ↦ d.symlink ]

-- The children of a directory without a marker go one by one, up to one that is not staged.
unfoldable pub unlink_staged : List Child → Bool × List Child
unlink_staged [] = (true, [])
unlink_staged (c ∷ cs) = if c.staged then unlink_staged cs else (false, c ∷ cs)

module _ (scratch_name : String → ℕ → String) where
  -- One round of `cleanup_scratch`; False stands for the ValueError.
  unfoldable pub cleanup_place : String → ℕ → Place → Disk → Bool × Disk
  cleanup_place job_id index place disk =
      if not place.absolute
        || (not (place.name == scratch_name job_id index) || is_symlink place disk)
      then (false, disk)
      else elim (lookup place disk) [
        | none ↦ (true, disk)
        | some d ↦ elim d.marker [
          | none ↦
              let (emptied, left) = unlink_staged d.children in
              if emptied then (true, without place disk) else (
                false,
                (place, record { symlink = d.symlink; marker = none; children = left })
                    ∷ without place disk,
              )
          | some owner ↦ if owner == job_id then (true, without place disk) else (false, disk)
        ]
      ]

  unfoldable pub cleanup_scratch : String → ℕ → List Place → Disk → Bool × Disk
  cleanup_scratch job_id index [] disk = (true, disk)
  cleanup_scratch job_id index (place ∷ places) disk =
      let (cleaned, left) = cleanup_place job_id index place disk in
      let rest : Bool × Disk = cleanup_scratch job_id (suc index) places left in
      if cleaned then rest else (false, left)
