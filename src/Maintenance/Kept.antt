-- ===== src/Maintenance/Kept.antt =====
-- What `expire_transfers` removes, and what it keeps.
use session_search.Base.{
  ℕ, suc, ◌-◌, refl, inl, inr, Bool, true, false, not, ◌&&◌, ◌||◌, [], ◌∷◌, if◌then◌else◌, ◌==◌,
  nat_eq, string_eq, ltb, leb, All, All-append, Bool-cases,
}
use session_search.Base.Result.{Result, Result-cases}
use session_search.Maintenance.{
  Name, name_eq, File, Files, Root, Archive, Directory, Outcome, Counts, Scan, counts_of, missing,
  files_of, plain, scan_entry, scan_files, scan_root, start_scan, expire_all, expire_scan,
  expire_transfers,
}
use session_search.Maintenance.Removed.{
  Kept, Kept-trans, Old, IsLock, expire_all-Kept, expire_locks-Kept,
}

module _ (archive : Archive) (locked : Directory → Name → Bool) (apply : Bool) (cutoff : ℕ) where
  -- The scan finds old candidates, and lock files.
  abbrev Sound : Scan → Type 0
  Sound s =
      All (Old archive locked apply cutoff) s.candidates
      × All (IsLock archive locked apply cutoff) s.orphan_locks

  scan_entry-Sound :
      (d : Directory) (files : Files) (n : Name) (f : File) (s : Scan)
      → Sound s
      → Sound (scan_entry cutoff d files n f s)
  unfolding scan_entry
  scan_entry-Sound d files (Name.other name) f s h = h
  scan_entry-Sound d files (Name.lock producer key) f s h =
      elim (Bool-cases (
        plain f
        && (f.size == 0 && (ltb f.mtime cutoff && missing (Name.part producer key) files)))) [
          | inl orphan ↦
              rw (scan_entry, orphan)
                (
                  h.0,
                  All-append (IsLock archive locked apply cutoff) s.orphan_locks (_ ∷ []) h.1
                      ((producer, key, refl), tt),
                )
          | inr kept ↦ rw (scan_entry, kept) h
        ]
  scan_entry-Sound d files (Name.part producer key) f s h = elim (Bool-cases (not (plain f))) [
    | inl strange ↦ rw (scan_entry, strange) h
    | inr regular ↦ elim (Bool-cases (ltb f.mtime cutoff)) [
      | inl old ↦
          rw (scan_entry, regular, old)
            (All-append (Old archive locked apply cutoff) s.candidates (_ ∷ []) h.0 (old, tt), h.1)
      | inr new ↦ rw (scan_entry, regular, new) h
    ]
  ]

  scan_files-Sound :
      (limit : ℕ) (d : Directory) (files rest : Files) (s : Scan)
      → Sound s
      → Sound (scan_files limit cutoff d files rest s).1
  unfolding scan_files
  scan_files-Sound limit d files [] s h = h
  scan_files-Sound limit d files ((n, f) ∷ rest) s h = elim (Bool-cases (leb limit s.scanned)) [
    | inl full ↦ rw (scan_files, full) h
    | inr room ↦
        rw (scan_files, room)
          (scan_files-Sound limit d files rest
            (scan_entry cutoff d files n f (record s { scanned = suc s.scanned }))
            (scan_entry-Sound d files n f (record s { scanned = suc s.scanned }) h))
  ]

  expire_scan-Kept :
      (s : Scan) (r : Root)
      → Sound s
      → Kept archive locked apply cutoff r (expire_scan archive locked apply s r).1
  unfolding expire_scan
  expire_scan-Kept s r h =
      let call : Result Counts × Root =
        expire_all archive locked apply s.candidates (counts_of s) r in
      let one : Kept archive locked apply cutoff r call.1 =
        expire_all-Kept archive locked apply cutoff s.candidates (counts_of s) r h.0 in
      elim (Result-cases call.0) [
        | inr (e, failed) ↦ rw (expire_scan, failed) one
        | inl (c, done) ↦
            rw (expire_scan, done)
              (Kept-trans archive locked apply cutoff r call.1 _ one
                (expire_locks-Kept archive locked apply cutoff s.orphan_locks c call.1 h.1))
      ]

scan_root-Sound :
    (archive : Archive) (locked : Directory → Name → Bool) (apply : Bool) (cutoff limit : ℕ)
    (r : Root)
    → Sound archive locked apply cutoff (scan_root limit cutoff r).1
unfolding scan_root
scan_root-Sound archive locked apply cutoff limit r =
    let raw : Bool × Scan =
      scan_files limit cutoff Directory.raw (files_of Directory.raw r) (files_of Directory.raw r)
        start_scan in
    let one : Sound archive locked apply cutoff raw.1 =
      scan_files-Sound archive locked apply cutoff limit Directory.raw (files_of Directory.raw r)
        (files_of Directory.raw r) start_scan (tt, tt) in
    elim (Bool-cases raw.0) [
      | inr full ↦ rw (scan_root, full) one
      | inl complete ↦
          rw (scan_root, complete)
            (scan_files-Sound archive locked apply cutoff limit Directory.revision
              (files_of Directory.revision r) (files_of Directory.revision r) raw.1 one)
    ]

if_either {ℓ κ} :
    {A : Type ℓ} (P : A → Type κ) (b : Bool) (x y : A) → P x → P y → P (if b then x else y)
if_either P true x y p q = p
if_either P false x y p q = q

-- Whatever expire_transfers ends with, a partial file that was there is still there, unless removal
-- was asked for, it is a regular file with one link that is older than the limit, and its key is
-- neither published nor, for a raw file, recorded in the catalog; a lock file may go only if
-- removal was asked for, and any other file stays.
pub expire_transfers-Kept :
    (archive : Archive) (locked : Directory → Name → Bool) (now older_than : ℕ) (apply : Bool)
    (limit : ℕ) (r : Root)
    → Kept archive locked apply
        (now - older_than)
        r
        (expire_transfers archive locked now older_than apply limit r).1
unfolding expire_transfers
expire_transfers-Kept archive locked now older_than apply limit r =
    let cutoff : ℕ = now - older_than in
    let same : Kept archive locked apply cutoff r r = λ d n f there. inl there in
    let P : Result (Outcome × Counts) × Root → Type 0 =
      λ p. Kept archive locked apply cutoff r p.1 in
    if_either P (ltb older_than 86400 || (ltb limit 1 || (ltb 1000000 limit || not r.has_catalog)))
      _ _ same
      (if_either P r.has_marker _ _ same (
        if_either P r.writers_locked _ _ same (
          if_either P (scan_root limit cutoff r).0 _ _
            (expire_scan-Kept archive locked apply cutoff (scan_root limit cutoff r).1 r
              (scan_root-Sound archive locked apply cutoff limit r))
            same)))
