-- ===== src/VerificationJobs/Foreign.antt =====
-- Cleanup removes no directory that carries the marker of another job.
use session_search.Base.{
  ℕ, suc, ◌≡◌, ◌≢◌, refl, sym, ap, ◌∙◌, inl, inr, String, Bool, true, false, not, ◌||◌, none, some,
  List, [], ◌∷◌, arith, ◌==◌, string_eq, Bool-cases, Option-cases, lookup, lookup-without, without,
}
use session_search.VerificationJobs.Scratch.{
  Place, place_eq, Scratch, Disk, is_symlink, unlink_staged, cleanup_place, cleanup_scratch,
}

places_apart :
    (at place : Place) (disk : Disk) (d x : Scratch)
    → lookup at disk ≡ some d
    → lookup place disk ≡ some x
    → d.marker ≢ x.marker
    → (at == place) ≡ false
places_apart at place disk d x there found differ = elim (Bool-cases (at == place)) [
  | inr apart ↦ apart
  | inl same ↦
      let e : at ≡ place = ground arith in
      let both : some d ≡ some x = sym there ∙ ap (λ p. lookup p disk) e ∙ found in
      absurd (differ (ap (λ o. elim o [ none ↦ d.marker | some y ↦ y.marker ]) both))
]

lookup_other :
    (at place : Place) (disk : Disk) (d x : Scratch)
    → lookup at disk ≡ some d
    → lookup place disk ≡ some x
    → d.marker ≢ x.marker
    → lookup at (without place disk) ≡ some d
lookup_other at place disk d x there found differ =
    ground (
      arith,
      lookup-without at place disk,
      places_apart at place disk d x there found differ,
      there,
    )

module _ (scratch_name : String → ℕ → String) where
  cleanup_place_foreign :
      (id : String) (index : ℕ) (place at : Place) (disk : Disk) (d : Scratch) (owner : String)
      → lookup at disk ≡ some d
      → d.marker ≡ some owner
      → owner ≢ id
      → lookup at (cleanup_place scratch_name id index place disk).1 ≡ some d
  unfolding cleanup_place lookup
  cleanup_place_foreign id index place at disk d owner there marked other =
      elim (Bool-cases (
        not place.absolute
        || (not (place.name == scratch_name id index) || is_symlink place disk))) [
          | inl wrong ↦ rw (cleanup_place, wrong) there
          | inr right ↦ elim (Option-cases (lookup place disk)) [
            | inl gone ↦ rw (cleanup_place, right, gone) there
            | inr (x, found) ↦ elim (Option-cases x.marker) [
              | inl bare ↦ elim (Bool-cases (unlink_staged x.children).0) [
                | inl emptied ↦
                    let out : cleanup_place scratch_name id index place disk
                        ≡ (true, without place disk) =
                      rw (cleanup_place, right, found, bare, emptied) refl in
                    ap (λ (p : Bool × Disk). lookup at p.1) out
                    ∙ lookup_other at place disk d x there found
                        (λ e. absurd (ground (arith, e, marked, bare)))
                | inr left ↦
                    let rest : Scratch = record {
                      symlink = x.symlink;
                      marker = none;
                      children = (unlink_staged x.children).1;
                    } in
                    let out : cleanup_place scratch_name id index place disk
                        ≡ (false, (place, rest) ∷ without place disk) =
                      rw (cleanup_place, right, found, bare, left) refl in
                    let differ : d.marker ≢ x.marker =
                      λ e. absurd (ground (arith, e, marked, bare)) in
                    ap (λ (p : Bool × Disk). lookup at p.1) out
                    ∙ ground (
                      arith,
                      places_apart at place disk d x there found differ,
                      lookup_other at place disk d x there found differ,
                    )
              ]
              | inr (o, owned) ↦ elim (Bool-cases (o == id)) [
                | inl own ↦
                    let out : cleanup_place scratch_name id index place disk
                        ≡ (true, without place disk) =
                      rw (cleanup_place, right, found, owned, own) refl in
                    ap (λ (p : Bool × Disk). lookup at p.1) out
                    ∙ lookup_other at place disk d x there found
                        (λ e. other (ground (arith, e, marked, owned, own)))
                | inr theirs ↦ rw (cleanup_place, right, found, owned, theirs) there
              ]
            ]
          ]
        ]

  -- Whatever places a record lists, cleanup_scratch leaves every directory whose marker names
  -- another job as it is, also when it ends early.
  pub cleanup_scratch_foreign :
      (id : String) (index : ℕ) (places : List Place) (at : Place) (disk : Disk) (d : Scratch)
      (owner : String)
      → lookup at disk ≡ some d
      → d.marker ≡ some owner
      → owner ≢ id
      → lookup at (cleanup_scratch scratch_name id index places disk).1 ≡ some d
  unfolding cleanup_scratch
  cleanup_scratch_foreign id index [] at disk d owner there marked other = there
  cleanup_scratch_foreign id index (place ∷ places) at disk d owner there marked other =
      let left : Disk = (cleanup_place scratch_name id index place disk).1 in
      let one : lookup at left ≡ some d =
        cleanup_place_foreign id index place at disk d owner there marked other in
      elim (Bool-cases (cleanup_place scratch_name id index place disk).0) [
        | inl cleaned ↦
            rw (cleanup_scratch, cleaned)
              (cleanup_scratch_foreign id (suc index) places at left d owner one marked other)
        | inr stopped ↦ rw (cleanup_scratch, stopped) one
      ]
