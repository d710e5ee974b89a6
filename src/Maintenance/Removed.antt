-- ===== src/Maintenance/Removed.antt =====
-- What the removals of `expire_transfers` keep.
use session_search.Base.{
  ℕ, ◌≡◌, ◌⊎◌, refl, sym, ap, subst, ◌∙◌, inl, inr, String, Bool, true, false, not, ◌&&◌, ◌||◌,
  Option, none, some, List, [], ◌∷◌, arith, ◌==◌, nat_eq, string_eq, ltb, All, Bool-cases,
  Option-cases, lookup, lookup-without, without,
}
use session_search.Base.Result.{Result, Result-cases, ok, err}
use session_search.Maintenance.{
  Name, name_eq, File, Files, Root, Archive, published, referenced, Directory, Found, Counts,
  files_of, unlink, plain, expire_part, expire, expire_lock, expire_all, expire_locks,
}

abbrev listed : Option Files → Files
listed o = elim o [ none ↦ [] | some files ↦ files ]

abbrev lessened : Name → Option Files → Option Files
lessened m o = elim o [ none ↦ none | some files ↦ some (without m files) ]

lookup-lessened :
    (n m : Name) (o : Option Files) (f : File)
    → lookup n (listed o) ≡ some f
    → (lookup n (listed (lessened m o)) ≡ some f) ⊎ (m ≡ n)
lookup-lessened n m none f h = inl h
lookup-lessened n m (some files) f h = elim (Bool-cases (n == m)) [
  | inl same ↦ inr (ground arith)
  | inr differ ↦ inl (ground (arith, lookup-without n m files))
]

-- An unlinked file is gone, and no other.
lookup-unlink :
    (d e : Directory) (n m : Name) (r : Root) (f : File)
    → lookup n (files_of d r) ≡ some f
    → (lookup n (files_of d (unlink e m r)) ≡ some f) ⊎ ((e ≡ d) × (m ≡ n))
unfolding unlink
lookup-unlink Directory.raw Directory.revision n m r f h = inl h
lookup-unlink Directory.revision Directory.raw n m r f h = inl h
lookup-unlink Directory.raw Directory.raw n m r f h = elim (lookup-lessened n m r.transfers f h) [
  | inl there ↦ inl there
  | inr same ↦ inr (refl, same)
]
lookup-unlink Directory.revision Directory.revision n m r f h =
    elim (lookup-lessened n m r.revision_transfers f h) [
      | inl there ↦ inl there
      | inr same ↦ inr (refl, same)
    ]

name_cases :
    (n : Name)
    → ((producer : String) × (key : String) × (n ≡ Name.part producer key))
      ⊎ ((c : Counts) (r : Root) (x : Result (Counts × Root))
            (y : String → String → Result (Counts × Root))
          → elim n [ Name.other _ ↦ x | Name.lock _ _ ↦ x | Name.part p k ↦ y p k ] ≡ x)
name_cases (Name.part producer key) = inl (producer, key, refl)
name_cases (Name.lock producer key) = inr (λ c r x y. refl)
name_cases (Name.other name) = inr (λ c r x y. refl)

module _ (archive : Archive) (locked : Directory → Name → Bool) (apply : Bool) (cutoff : ℕ) where
  -- A partial file goes only if it is a plain file that is old and that nothing published or
  -- recorded needs; a lock file may go; any other file stays.
  abbrev pub MayGo : Directory → Name → File → Type 0
  MayGo d (Name.part producer key) f =
      (apply ≡ true)
      × (plain f ≡ true)
      × (ltb f.mtime cutoff ≡ true)
      × (published archive d key ≡ false)
      × (referenced archive d key ≡ false)
  MayGo d (Name.lock producer key) f = apply ≡ true
  MayGo d (Name.other name) f = ⊥

  abbrev pub Kept : Root → Root → Type 0
  Kept r s =
      (d : Directory) (n : Name) (f : File)
      → lookup n (files_of d r) ≡ some f
      → (lookup n (files_of d s) ≡ some f) ⊎ MayGo d n f

  pub Kept-trans : (r s t : Root) → Kept r s → Kept s t → Kept r t
  Kept-trans r s t x y d n f h = elim (x d n f h) [ inr go ↦ inr go | inl there ↦ y d n f there ]

  unlink-Kept :
      (e : Directory) (m : Name) (r : Root)
      → ((f : File) → lookup m (files_of e r) ≡ some f → MayGo e m f)
      → Kept r (unlink e m r)
  unlink-Kept e m r may d n f h = elim (lookup-unlink d e n m r f h) [
    | inl there ↦ inl there
    | inr (same, named) ↦ inr (
        subst (λ (p : Directory × Name). lookup p.1 (files_of p.0 r) ≡ some f → MayGo p.0 p.1 f)
          (λ i. (same i, named i)) (may f) h)
  ]

  -- Every candidate of the scan is old.
  abbrev pub Old : Found → Type 0
  Old found = ltb found.info.mtime cutoff ≡ true

  abbrev pub IsLock : Found → Type 0
  IsLock found = (producer : String) × (key : String) × (found.name ≡ Name.lock producer key)

  expire_part_cases :
      (d : Directory) (producer key : String) (info : File) (c : Counts) (r : Root) (c' : Counts)
      (r' : Root)
      → expire_part archive locked apply d producer key info c r ≡ ok (c', r')
      → (r' ≡ r)
        ⊎ ((apply ≡ true)
            × (published archive d key ≡ false)
            × (referenced archive d key ≡ false)
            × (r' ≡ unlink d (Name.lock producer key) (unlink d (Name.part producer key) r))
            × (current : File) × (lookup (Name.part producer key) (files_of d r) ≡ some current)
            × (plain current ≡ true)
            × (current.mtime ≡ info.mtime))
  unfolding expire_part
  expire_part_cases d producer key info c r c' r' h =
      elim (Bool-cases (published archive d key || referenced archive d key)) [
        | inl needed ↦ inl (ground (arith, needed))
        | inr free ↦ elim (Option-cases (lookup (Name.lock producer key) (files_of d r))) [
          | inl none_ ↦ inl (ground (arith, none_))
          | inr (l, found) ↦
              elim (Bool-cases (not l.regular || locked d (Name.lock producer key))) [
                | inl held ↦ inl (ground (arith, found, held))
                | inr open_ ↦ elim (Option-cases (lookup (Name.part producer key) (files_of d r))) [
                  | inl gone ↦ absurd (ground (arith, found, open_, gone))
                  | inr (current, there) ↦
                      elim (Bool-cases (
                        plain current
                        && (current.inode == info.inode
                            && (current.size == info.size && current.mtime == info.mtime)))) [
                              | inr changed ↦ inl (ground (arith, found, open_, there, changed))
                              | inl same ↦ elim (Bool-cases apply) [
                                | inr dry ↦ inl (ground (arith, found, open_, there, same, dry))
                                | inl wet ↦ inr (
                                  wet,
                                  ground arith,
                                  ground arith,
                                  ground (arith, found, open_, there, same, wet),
                                  current,
                                  there,
                                  ground arith,
                                  ground arith,
                                )
                              ]
                            ]
                ]
              ]
        ]
      ]

  expire_part-Kept :
      (d : Directory) (producer key : String) (info : File) (c : Counts) (r : Root) (c' : Counts)
      (r' : Root)
      → ltb info.mtime cutoff ≡ true
      → expire_part archive locked apply d producer key info c r ≡ ok (c', r')
      → Kept r r'
  expire_part-Kept d producer key info c r c' r' old h =
      elim (expire_part_cases d producer key info c r c' r' h) [
        | inl same ↦ subst (Kept r) (sym same) (λ e n f there. inl there)
        | inr (wet, free, unneeded, gone, current, there, regular, time) ↦
            let one : Kept r (unlink d (Name.part producer key) r) =
              unlink-Kept d (Name.part producer key) r (λ f at.
                let same : some current ≡ some f = sym there ∙ at in
                let it : current ≡ f =
                  ap (λ (o : Option File). elim o [ none ↦ current | some x ↦ x ]) same in
                subst (MayGo d (Name.part producer key)) it
                  (wet, regular, ap (λ t. ltb t cutoff) time ∙ old, free, unneeded)) in
            let two : Kept (unlink d (Name.part producer key) r)
                (unlink d (Name.lock producer key) (unlink d (Name.part producer key) r)) =
              unlink-Kept d (Name.lock producer key) (unlink d (Name.part producer key) r)
                (λ f at. wet) in
            subst (Kept r) (sym gone) (Kept-trans r _ _ one two)
      ]

  expire-Kept :
      (found : Found) (c : Counts) (r : Root)
      → Old found
      → (c' : Counts) (r' : Root) → expire archive locked apply found c r ≡ ok (c', r')
      → Kept r r'
  unfolding expire
  expire-Kept found c r old c' r' h = elim (name_cases found.name) [
    | inl (producer, key, named) ↦
        let out : expire archive locked apply found c r
            ≡ expire_part archive locked apply found.directory producer key found.info c r =
          rw (expire, named) refl in
        expire_part-Kept found.directory producer key found.info c r c' r' old (sym out ∙ h)
    | inr nothing ↦
        let out : ok (c, r) ≡ ok (c', r') =
          sym (
            nothing c r (ok (c, r))
              (λ p k. expire_part archive locked apply found.directory p k found.info c r))
          ∙ h in
        let same : r ≡ r' =
          ap (λ (x : Result (Counts × Root)). elim x [ ok p ↦ p.1 | err _ ↦ r ]) out in
        subst (Kept r) same (λ e n f there. inl there)
  ]

  pub expire_all-Kept :
      (founds : List Found) (c : Counts) (r : Root)
      → All Old founds
      → Kept r (expire_all archive locked apply founds c r).1
  unfolding expire_all
  expire_all-Kept [] c r old = λ d n f there. inl there
  expire_all-Kept (found ∷ founds) c r old =
      elim (Result-cases (expire archive locked apply found c r)) [
        | inr (e, failed) ↦ rw (expire_all, failed) (λ d n f there. inl there)
        | inl ((c', r'), done) ↦
            rw (expire_all, done)
              (Kept-trans r r' _ (expire-Kept found c r old.0 c' r' done)
                (expire_all-Kept founds c' r' old.1))
      ]

  expire_lock_cases :
      (found : Found) (c : Counts) (r : Root)
      → ((expire_lock archive locked apply found c r).1 ≡ r)
        ⊎ ((apply ≡ true)
            × ((expire_lock archive locked apply found c r).1
                ≡ unlink found.directory found.name r))
  unfolding expire_lock
  expire_lock_cases found c r =
      elim (Option-cases (lookup found.name (files_of found.directory r))) [
        | inl gone ↦ inl (rw (expire_lock, gone) refl)
        | inr (current, there) ↦ elim (Bool-cases (locked found.directory found.name)) [
          | inl held ↦ inl (rw (expire_lock, there, held) refl)
          | inr free ↦
              elim (Bool-cases (
                not (plain current)
                || not (
                    current.size == 0
                    && (current.inode == found.info.inode && current.mtime == found.info.mtime)))) [
                      | inl changed ↦ inl (rw (expire_lock, there, free, changed) refl)
                      | inr same ↦ elim (Bool-cases apply) [
                        | inl wet ↦ inr (wet, rw (expire_lock, there, free, same, wet) refl)
                        | inr dry ↦ inl (rw (expire_lock, there, free, same, dry) refl)
                      ]
                    ]
        ]
      ]

  expire_lock-Kept :
      (found : Found) (c : Counts) (r : Root)
      → IsLock found
      → Kept r (expire_lock archive locked apply found c r).1
  expire_lock-Kept found c r (producer, key, named) = elim (expire_lock_cases found c r) [
    | inl same ↦ subst (Kept r) (sym same) (λ e n f there. inl there)
    | inr (wet, gone) ↦ subst (Kept r) (sym gone) (
        unlink-Kept found.directory found.name r
          (λ f at. subst (λ (n : Name). MayGo found.directory n f) (sym named) wet))
  ]

  pub expire_locks-Kept :
      (founds : List Found) (c : Counts) (r : Root)
      → All IsLock founds
      → Kept r (expire_locks archive locked apply founds c r).1
  unfolding expire_locks
  expire_locks-Kept [] c r locks = λ d n f there. inl there
  expire_locks-Kept (found ∷ founds) c r locks =
      let call : Counts × Root = expire_lock archive locked apply found c r in
      Kept-trans r call.1 _ (expire_lock-Kept found c r locks.0)
        (expire_locks-Kept founds call.0 call.1 locks.1)
