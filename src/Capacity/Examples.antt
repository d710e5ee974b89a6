-- ===== src/Capacity/Examples.antt =====
-- Two staged files and a lock file.
use session_search.Base.{
  ◌+◌, ◌≤◌, ◌≡◌, refl, true, false, Option, none, some, List, [], ◌∷◌, arith, ℕ_discrete,
}
use session_search.Base.Result.{ok}
use session_search.Capacity.{
  Child, validate_budget, scan, scan_directory, scan_all, staging_admission,
}
use session_search.Capacity.Budget.{staged_total, contents, staging_admission-Budget}

abbrev transfers : Option (List Child)
transfers = some (
    record { is_part = true; info = some (true, 30) }
    ∷ record { is_part = false; info = some (true, 0) }
    ∷ record { is_part = true; info = some (true, 20) }
    ∷ [])

admits : staging_admission true (some 60) 10 transfers none 10 ≡ ok tt
unfolding staging_admission validate_budget scan_all scan_directory scan ℕ_discrete
admits = refl

staging_admission-Budget_example :
    staged_total (contents transfers) + staged_total (contents none) + 10 ≤ 60
staging_admission-Budget_example =
    staging_admission-Budget true 60 10 transfers none 10 admits (omega arith)
