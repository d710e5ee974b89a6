-- ===== src/Fencing.antt =====
-- src/session_search/storage/fencing.py: writers that share a lock, and the fence of a primary. A
-- call holds its lock throughout. The identity and the time of a fence enter as arguments.
pub mod Final
mod Examples
use session_search.Base.{
  ℕ, suc, ◌-◌, String, Bool, true, false, not, ◌&&◌, ◌||◌, Option, none, some, if◌then◌else◌, ◌==◌,
  nat_eq, string_eq,
}
use session_search.Base.Result.{Result, ok, err, value_error, permission_error}

pub record Receipt : Type 0 where
  pub version : ℕ
  pub status : String
  pub publication : String
  pub fence_id : String
  pub fenced_at : String

pub record Primary : Type 0 where
  pub has_catalog : Bool
  pub has_current : Bool
  pub has_manifest : Bool
  pub fenced : Option Receipt
  pub writers : ℕ
  pub publication : String

pub data Fence : Type 0 where
  busy : Fence
  fenced_by : Receipt → Fence

-- `acquire_writer`
unfoldable pub acquire_writer : Primary → Result Primary
acquire_writer s = elim s.fenced [
  | some receipt ↦ err permission_error
  | none ↦
      if s.has_current || s.has_manifest
      then err permission_error
      else ok (record s { writers = suc s.writers })
]

-- The end of `writer_lease`.
unfoldable pub release_writer : Primary → Option Primary
release_writer s = if s.writers == 0 then none else some (record s { writers = s.writers - 1 })

-- `fence_primary`
unfoldable pub fence_primary : String → String → Primary → Result (Fence × Primary)
fence_primary fence_id fenced_at s =
    let receipt : Receipt = record {
      version = 1;
      status = "fenced";
      publication = s.publication;
      fence_id = fence_id;
      fenced_at = fenced_at;
    } in
    if not s.has_catalog || (s.has_current || s.has_manifest)
    then err value_error
    else if not (s.writers == 0)
    then ok (Fence.busy, s)
    else elim s.fenced [
      | some old ↦
          if old.version == 1 && (old.status == "fenced" && old.publication == s.publication)
          then ok (Fence.fenced_by old, s)
          else err value_error
      | none ↦ ok (Fence.fenced_by receipt, record s { fenced = some receipt })
    ]
