-- ===== src/VerificationJobs/Retire.antt =====
-- What the loop of `submit` over the records leaves.
use session_search.Base.{
  ℕ, ◌≤◌, ◌≡◌, refl, inl, inr, String, true, false, List, [], ◌∷◌, arith, string_eq, ltb, length,
  All, All-append, Bool-cases, length-append,
}
use session_search.VerificationJobs.{Job, Status, is_active, ended, kept_record, retire}
use session_search.VerificationJobs.Scratch.{Disk, cleanup_scratch}

-- A job that is neither queued nor running.
abbrev pub Idle : String × Job → Type 0
Idle p = is_active p.1.status ≡ false

kept_record-All :
    (P : String × Job → Type 0) (now : ℕ) (id : String) (j : Job)
    → P (id, record (ended Status.interrupted now j) { scratch = [] })
    → (is_active j.status ≡ false → P (id, j))
    → All P (kept_record now id j)
unfolding kept_record
kept_record-All P now id j marked stays = elim (Bool-cases (is_active j.status)) [
  | inl active ↦ rw (kept_record, active) (marked, tt)
  | inr idle ↦ elim (Bool-cases (ltb j.expires_at now)) [
    | inl old ↦ rw (kept_record, idle, old) tt
    | inr fresh ↦ rw (kept_record, idle, fresh) (stays idle, tt)
  ]
]

length-kept_record : (now : ℕ) (id : String) (j : Job) → length (kept_record now id j) ≤ 1
unfolding kept_record
length-kept_record now id j = ground arith

module _ (scratch_name : String → ℕ → String) where
  pub retire-All :
      (P : String × Job → Type 0) (now : ℕ) (jobs : List (String × Job)) (disk : Disk)
      → ((id : String) (j : Job)
          → P (id, j)
          → P (id, record (ended Status.interrupted now j) { scratch = [] }))
      → All P jobs
      → All P (retire scratch_name now jobs disk).1
  unfolding retire
  retire-All P now [] disk marks h = tt
  retire-All P now ((id, j) ∷ jobs) disk marks h =
      let left : Disk = (cleanup_scratch scratch_name id 0 j.scratch disk).1 in
      elim (Bool-cases (cleanup_scratch scratch_name id 0 j.scratch disk).0) [
        | inl clean ↦
            rw (retire, clean)
              (All-append P (kept_record now id j) (retire scratch_name now jobs left).1
                (kept_record-All P now id j (marks id j h.0) (λ idle. h.0))
                (retire-All P now jobs left marks h.1))
        | inr dirty ↦ rw (retire, dirty) h
      ]

  pub retire-Idle :
      (now : ℕ) (jobs : List (String × Job)) (disk : Disk)
      → (retire scratch_name now jobs disk).0 ≡ true
      → All Idle (retire scratch_name now jobs disk).1
  unfolding retire
  retire-Idle now [] disk h = tt
  retire-Idle now ((id, j) ∷ jobs) disk h =
      let left : Disk = (cleanup_scratch scratch_name id 0 j.scratch disk).1 in
      elim (Bool-cases (cleanup_scratch scratch_name id 0 j.scratch disk).0) [
        | inl clean ↦
            rw (retire, clean)
              (All-append Idle (kept_record now id j) (retire scratch_name now jobs left).1
                (kept_record-All Idle now id j refl (λ idle. idle))
                (retire-Idle now jobs left (ground arith)))
        | inr dirty ↦ absurd (ground arith)
      ]

  pub length-retire :
      (now : ℕ) (jobs : List (String × Job)) (disk : Disk)
      → length (retire scratch_name now jobs disk).1 ≤ length jobs
  unfolding retire
  length-retire now [] disk = omega arith
  length-retire now ((id, j) ∷ jobs) disk =
      let left : Disk = (cleanup_scratch scratch_name id 0 j.scratch disk).1 in
      let rest : length (retire scratch_name now jobs left).1 ≤ length jobs =
        length-retire now jobs left in
      elim (Bool-cases (cleanup_scratch scratch_name id 0 j.scratch disk).0) [
        | inl clean ↦
            rw (retire, clean)
              (omega (
                arith,
                rest,
                length-kept_record now id j,
                length-append (kept_record now id j) (retire scratch_name now jobs left).1,
              ))
        | inr dirty ↦ rw (retire, dirty) (omega arith)
      ]
