-- ===== src/Capacity/Budget.antt =====
-- The budget is kept, and an upload within it is admitted.
use session_search.Base.{
  ℕ, suc, ◌+◌, ◌≤◌, ◌≡◌, inl, inr, Bool, Option, none, some, List, [], ◌∷◌, arith, if◌then◌else◌,
  nat_eq, length,
}
use session_search.Base.Result.{Result-cases, ok}
use session_search.Capacity.{Child, scan, scan_directory, scan_all, staging_admission}

-- The bytes that are staged.
abbrev pub staged_size : Child → ℕ
staged_size c = elim c.info [ none ↦ 0 | some info ↦ if c.is_part then info.1 else 0 ]

abbrev pub staged_total : List Child → ℕ
staged_total [] = 0
staged_total (c ∷ cs) = staged_size c + staged_total cs

abbrev pub contents : Option (List Child) → List Child
contents none = []
contents (some cs) = cs

module _ (incoming limit scan_limit : ℕ) where
  scan_ok :
      (used entries : ℕ) (cs : List Child) (total count : ℕ)
      → scan incoming limit scan_limit used entries cs ≡ ok (total, count)
      → (total ≡ used + staged_total cs) × (count ≡ entries + length cs)
  unfolding scan
  scan_ok used entries [] total count h = (ground arith, ground arith)
  scan_ok used entries (c ∷ cs) total count h =
      let next : ℕ = elim c.info [
        | none ↦ used
        | some info ↦ if c.is_part then used + info.1 else used
      ] in
      let step : next ≡ used + staged_size c = ground arith in
      let same : scan incoming limit scan_limit next (suc entries) cs ≡ ok (total, count) =
        ground arith in
      let ih : (total ≡ next + staged_total cs) × (count ≡ suc entries + length cs) =
        scan_ok next (suc entries) cs total count same in
      (omega arith, omega arith)

  directory_ok :
      (used entries : ℕ) (d : Option (List Child)) (total count : ℕ)
      → scan_directory incoming limit scan_limit used entries d ≡ ok (total, count)
      → total ≡ used + staged_total (contents d)
  unfolding scan_directory
  directory_ok used entries none total count h = ground arith
  directory_ok used entries (some cs) total count h = (scan_ok used entries cs total count h).0

  scan_all_ok :
      (transfers revisions : Option (List Child))
      → scan_all incoming limit scan_limit transfers revisions ≡ ok tt
      → staged_total (contents transfers) + staged_total (contents revisions) + incoming ≤ limit
  unfolding scan_all
  scan_all_ok transfers revisions h =
      elim (Result-cases (scan_directory incoming limit scan_limit 0 0 transfers)) [
        | inr (e, failed) ↦ absurd (ground arith)
        | inl ((used, entries), first) ↦
            elim (Result-cases (scan_directory incoming limit scan_limit used entries revisions)) [
              | inr (e, failed) ↦ absurd (ground arith)
              | inl ((total, count), second) ↦
                  let a : used ≡ 0 + staged_total (contents transfers) =
                    directory_ok 0 0 transfers used entries first in
                  let b : total ≡ used + staged_total (contents revisions) =
                    directory_ok used entries revisions total count second in
                  let within : total + incoming ≤ limit = ground arith in omega arith
            ]
      ]

-- Under a limit, an upload of at least one byte that staging_admission admits keeps the staged
-- bytes of both directories together with its own within the limit.
pub staging_admission-Budget :
    (free : Bool) (limit scan_limit : ℕ) (transfers revisions : Option (List Child)) (incoming : ℕ)
    → staging_admission free (some limit) scan_limit transfers revisions incoming ≡ ok tt
    → 1 ≤ incoming
    → staged_total (contents transfers) + staged_total (contents revisions) + incoming ≤ limit
unfolding staging_admission
staging_admission-Budget free limit scan_limit transfers revisions incoming h sent =
    let same : scan_all incoming limit scan_limit transfers revisions ≡ ok tt = ground arith in
    scan_all_ok incoming limit scan_limit transfers revisions same
