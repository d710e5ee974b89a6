-- ===== src/Capacity.antt =====
-- src/session_search/storage/transfer_capacity.py: the byte budget that the uploads of all
-- producers share. The directories of staged files are given by their entries.
pub mod Budget
mod Examples
use session_search.Base.{
  ℕ, suc, ◌+◌, String, Bool, true, false, not, ◌&&◌, ◌||◌, Option, none, some, List, [], ◌∷◌, ltb,
  leb, if◌then◌else◌, ◌==◌, Eq, nat_eq,
}
use session_search.Base.Result.{Result, ok, err, Error, value_error, os_error}

-- A directory entry: whether its name ends in `.part`, and what `stat` finds, if it is still there:
-- whether it is a regular file, and its size.
pub record Child : Type 0 where
  pub is_part : Bool
  pub info : Option (Bool × ℕ)

-- `validate_budget`
unfoldable pub validate_budget : Option ℕ → ℕ → Bool
validate_budget limit scan_limit =
    leb 1 scan_limit && (leb scan_limit 1000000 && elim limit [ none ↦ true | some n ↦ leb 1 n ])

module _ (incoming limit scan_limit : ℕ) where
  -- The loop over one directory, from the bytes and the entries counted so far.
  unfoldable pub scan : ℕ → ℕ → List Child → Result (ℕ × ℕ)
  scan used entries [] = ok (used, entries)
  scan used entries (c ∷ cs) =
      let next : ℕ = elim c.info [
        | none ↦ used
        | some info ↦ if c.is_part then used + info.1 else used
      ] in
      let rest : Result (ℕ × ℕ) = scan next (suc entries) cs in
      if ltb scan_limit (suc entries)
      then err os_error
      else if not c.is_part
      then rest
      else elim c.info [
        | none ↦ rest
        | some info ↦
            if not info.0
            then err os_error
            else if ltb limit (used + info.1 + incoming)
            then err os_error
            else rest
      ]

  -- A directory that is missing is skipped.
  unfoldable pub scan_directory : ℕ → ℕ → Option (List Child) → Result (ℕ × ℕ)
  scan_directory used entries none = ok (used, entries)
  scan_directory used entries (some cs) = scan used entries cs

  unfoldable pub scan_all : Option (List Child) → Option (List Child) → Result (Unit {0})
  scan_all transfers revisions = elim (scan_directory 0 0 transfers) [
    | err e ↦ err e
    | ok (used, entries) ↦ elim (scan_directory used entries revisions) [
      | err e ↦ err e
      | ok (total, _) ↦ if ltb limit (total + incoming) then err os_error else ok tt
    ]
  ]

-- `staging_admission`. `free`: no other writer holds the lock of the budget.
unfoldable pub staging_admission :
    Bool → Option ℕ → ℕ → Option (List Child) → Option (List Child) → ℕ → Result (Unit {0})
staging_admission free limit scan_limit transfers revisions incoming =
    if not (validate_budget limit scan_limit) then err value_error else elim limit [
      | none ↦ ok tt
      | some n ↦
          if incoming == 0
          then ok tt
          else if not free
          then err os_error
          else scan_all incoming n scan_limit transfers revisions
    ]
