-- ===== src/VerificationJobs/Reachable.antt =====
-- Whatever submissions, processes and crashes do, one process at most has an unfinished job.
use session_search.Base.{
  ℕ, suc, ◌≤◌, ◌≡◌, refl, sym, ap, subst, ◌∙◌, inl, inr, String, Bool, true, false, Option, none,
  some, List, [], ◌∷◌, ◌++◌, arith, string_eq, ltb, leb, length, length-upsert, All, All-mono,
  All-upsert, Bool-cases, Option-cases, lookup, upsert, is_digest, ◌&&◌,
}
use session_search.VerificationJobs.{
  Job, Status, Store, Requirement, check_requirements, final_job, max_jobs, is_active, ended,
  retire, admit, submit, new_job, start_job, publish_scratch, make_directory, mark_directory,
  finish_job,
}
use session_search.VerificationJobs.Scratch.{Place, place_eq, Disk, cleanup_scratch}
use session_search.VerificationJobs.Retire.{Idle, retire-All, retire-Idle, length-retire}

-- The process of a job that holds the lock, and the record that it works on.
abbrev pub Runs : String → Job → Store → Type 0
Runs id j s = (s.lock ≡ some id) × (lookup id s.jobs ≡ some j)

abbrev or_same : Store → Option Store → Store
or_same s none = s
or_same s (some t) = t

start_same :
    (id : String) (j : Job) (s t : Store)
    → lookup id s.jobs ≡ some j
    → start_job id s ≡ some t
    → t ≡ record s { jobs = upsert id (record j { status = Status.running }) s.jobs }
unfolding start_job
start_same id j s t found h =
    let out : start_job id s
        ≡ some (record s { jobs = upsert id (record j { status = Status.running }) s.jobs }) =
      rw (start_job, found) refl in
    let same : some t
        ≡ some (record s { jobs = upsert id (record j { status = Status.running }) s.jobs }) =
      sym h ∙ out in
    ap (λ o. or_same s o) same

publish_same :
    (id : String) (j k : Job) (place : Place) (s t : Store)
    → publish_scratch id j place s ≡ some (k, t)
    → t ≡ record s { jobs = upsert id (record j { scratch = j.scratch ++ place ∷ [] }) s.jobs }
unfolding publish_scratch
publish_same id j k place s t h = elim (Option-cases (lookup place s.disk)) [
  | inr (d, there) ↦ absurd (ground (arith, there))
  | inl free ↦
      let out : publish_scratch id j place s
          ≡ some (
            record j { scratch = j.scratch ++ place ∷ [] },
            record s { jobs = upsert id (record j { scratch = j.scratch ++ place ∷ [] }) s.jobs },
          ) =
        rw (publish_scratch, free) refl in
      ap (λ o. or_same s (elim o [ none ↦ none | some p ↦ some p.1 ])) (sym h ∙ out)
]

module _ (verify : List Requirement → Option String) where
  -- A job that counts as verified has the proof that the verification of its own requirements gave.
  abbrev pub Verified : String × Job → Type 0
  Verified p =
      p.1.status ≡ Status.restore_verified
      → (proof : String) × (p.1.proof ≡ some proof) × (verify p.1.requirements ≡ some proof)

  -- Only the job of the process that holds the lock is queued or running; there are 32 records at
  -- most, and each that counts as verified is.
  abbrev pub IsRuled : Store → Type 0
  IsRuled s =
      ((holder : String)
        → s.lock ≡ some holder
        → All (λ (p : String × Job). is_active p.1.status ≡ true → p.0 ≡ holder) s.jobs)
      × (length s.jobs ≤ max_jobs)
      × All Verified s.jobs

  -- The lock goes, or the disk changes.
  disk-IsRuled : (s : Store) (disk : Disk) → IsRuled s → IsRuled (record s { disk = disk })
  disk-IsRuled s disk h = h

  unlocked-IsRuled : (s : Store) → IsRuled s → IsRuled (record s { lock = none })
  unlocked-IsRuled s h = ((λ holder e. absurd (ground arith)), h.1, h.2)

  put-IsRuled :
      (s : Store) (id : String) (j k : Job)
      → IsRuled s
      → Runs id j s
      → Verified (id, k)
      → IsRuled (record s { jobs = upsert id k s.jobs })
  put-IsRuled s id j k h runs verified = (
    (λ holder e.
        All-upsert (λ (p : String × Job). is_active p.1.status ≡ true → p.0 ≡ holder) id k s.jobs
          (λ active. ground (arith, runs.0, e)) (h.0 holder e)),
    (let same : length (upsert id k s.jobs) ≡ length s.jobs =
          ground (arith, length-upsert id k s.jobs, runs.1) in
        omega (arith, same, h.1)),
    All-upsert Verified id k s.jobs verified h.2,
  )

  -- A record that comes in when there is room.
  enter_short :
      (id : String) (j : Job) (jobs : List (String × Job))
      → suc (length jobs) ≤ max_jobs
      → length (upsert id j jobs) ≤ max_jobs
  enter_short id j jobs h = elim (Option-cases (lookup id jobs)) [
    | inl new ↦
        (let e : length (upsert id j jobs) ≡ suc (length jobs) =
            ground (arith, length-upsert id j jobs, new) in
          omega (arith, e, h))
    | inr (k, old) ↦
        (let e : length (upsert id j jobs) ≡ length jobs =
            ground (arith, length-upsert id j jobs, old) in
          omega (arith, e, h))
  ]

  marks-Verified :
      (now : ℕ) (id : String) (j : Job)
      → Verified (id, j)
      → Verified (id, record (ended Status.interrupted now j) { scratch = [] })
  marks-Verified now id j h e = absurd (ground arith)

  final_job-Verified :
      (id : String) (cleaned : Bool) (proof : Option String) (now : ℕ) (j : Job)
      → ((p : String) → proof ≡ some p → verify j.requirements ≡ some p)
      → Verified (id, final_job cleaned proof now j)
  unfolding final_job
  final_job-Verified id false proof now j sure e = absurd (ground (arith, e))
  final_job-Verified id true none now j sure e = absurd (ground (arith, e))
  final_job-Verified id true (some p) now j sure e = (p, refl, sure p refl)

  module _ (scratch_name : String → ℕ → String) (sha256 : String → String)
      (job_digest : String → String → List Requirement → String)
      (json_size : List Requirement → ℕ) where
    -- What may happen next.
    pub data Step : Store → Store → Type 0 where
      submits :
          (producer nonce : String) (requirements : List Requirement) (now : ℕ) (spawned : Bool)
          (s : Store)
          → Step s
              (submit scratch_name sha256 job_digest json_size producer nonce requirements now
                spawned s).1
      starts :
          (id : String) (j : Job) (s t : Store) → Runs id j s → start_job id s ≡ some t → Step s t
      publishes :
          (id : String) (j k : Job) (place : Place) (s t : Store)
          → Runs id j s
          → j.status ≡ Status.running
          → publish_scratch id j place s ≡ some (k, t)
          → Step s t
      makes : (place : Place) (s : Store) → Step s (make_directory place s)
      marks : (id : String) (place : Place) (s : Store) → Step s (mark_directory id place s)
      fails :
          (id : String) (j : Job) (now : ℕ) (s : Store)
          → Runs id j s
          → Step s (finish_job scratch_name id j none now s)
      succeeds :
          (id : String) (j : Job) (proof : String) (now : ℕ) (s : Store)
          → Runs id j s
          → verify j.requirements ≡ some proof
          → Step s (finish_job scratch_name id j (some proof) now s)
      crashes : (s : Store) → Step s (record s { lock = none })

    pub data Steps : Store → Store → Type 0 where
      stays : (s : Store) → Steps s s
      goes : (s t u : Store) → Steps s t → Step t u → Steps s u

    admit-IsRuled :
        (id : String) (j : Job) (now : ℕ) (spawned : Bool) (s : Store)
        → IsRuled s
        → s.lock ≡ none
        → j.status ≡ Status.queued
        → IsRuled (admit scratch_name id j now spawned s).1
    unfolding admit
    admit-IsRuled id j now spawned s h free queued =
        let kept : List (String × Job) = (retire scratch_name now s.jobs s.disk).1 in
        let left : Disk = (retire scratch_name now s.jobs s.disk).2 in
        let short : length kept ≤ max_jobs =
          (let a : length kept ≤ length s.jobs = length-retire scratch_name now s.jobs s.disk in
            omega (arith, h.1)) in
        let verified : All Verified kept =
          retire-All scratch_name Verified now s.jobs s.disk (marks-Verified now) h.2 in
        let idle : IsRuled (record s { jobs = kept; disk = left }) =
          ((λ holder e. absurd (ground (arith, free, e))), short, verified) in
        elim (Bool-cases (ltb max_jobs (length s.jobs))) [
          | inl many ↦ rw (admit, many) h
          | inr few ↦ elim (Bool-cases (retire scratch_name now s.jobs s.disk).0) [
            | inr stopped ↦ rw (admit, few, stopped) idle
            | inl done ↦ elim (Bool-cases (leb max_jobs (length kept))) [
              | inl full ↦ rw (admit, few, done, full) idle
              | inr room ↦ elim (Bool-cases spawned) [
                | inl ran ↦
                    rw (admit, few, done, room, ran)
                      (
                        (λ holder e.
                            All-upsert
                              (λ (p : String × Job). is_active p.1.status ≡ true → p.0 ≡ holder) id
                              j kept (λ active. ground (arith, e))
                              (All-mono {P = Idle}
                                {Q = λ (p : String × Job).
                                  is_active p.1.status ≡ true → p.0 ≡ holder}
                                (λ p i active. absurd (ground (arith, i, active))) kept
                                (retire-Idle scratch_name now s.jobs s.disk done))),
                        enter_short id j kept (ground (arith, room)),
                        All-upsert Verified id j kept (λ e. absurd (ground (arith, e, queued)))
                            verified,
                      )
                | inr failed ↦
                    rw (admit, few, done, room, failed)
                      (
                        (λ holder e. absurd (ground (arith, free, e))),
                        enter_short id (ended Status.failed now j) kept (ground (arith, room)),
                        All-upsert Verified id (ended Status.failed now j) kept
                            (λ e. absurd (ground (arith, e))) verified,
                      )
              ]
            ]
          ]
        ]

    submit-IsRuled :
        (producer nonce : String) (requirements : List Requirement) (now : ℕ) (spawned : Bool)
        (s : Store)
        → IsRuled s
        → IsRuled
            (submit scratch_name sha256 job_digest json_size producer nonce requirements now spawned
              s).1
    unfolding submit
    submit-IsRuled producer nonce requirements now spawned s h =
        let job_id : String = job_digest (sha256 producer) nonce requirements in
        let valid : Bool =
          is_digest nonce
          && ((leb 1 (length requirements) && leb (length requirements) 100)
              && (check_requirements requirements && leb (json_size requirements) 49152)) in
        elim (Bool-cases valid) [
          | inr wrong ↦ rw (submit, wrong) h
          | inl right ↦ elim (Option-cases (lookup job_id s.jobs)) [
            | inr (j, known) ↦ rw (submit, right, known) h
            | inl new ↦ elim (Option-cases s.lock) [
              | inr (holder, held) ↦ rw (submit, right, new, held) h
              | inl free ↦
                  let ran : IsRuled
                      (admit scratch_name job_id
                        (new_job scratch_name sha256 job_digest json_size producer nonce
                          requirements)
                        now spawned s).1 =
                    admit-IsRuled job_id
                      (new_job scratch_name sha256 job_digest json_size producer nonce requirements)
                      now spawned s h free refl in
                  rw (submit, right, new, free) ran
            ]
          ]
        ]

    finish-IsRuled :
        (id : String) (j : Job) (proof : Option String) (now : ℕ) (s : Store)
        → IsRuled s
        → Runs id j s
        → ((p : String) → proof ≡ some p → verify j.requirements ≡ some p)
        → IsRuled (finish_job scratch_name id j proof now s)
    unfolding finish_job
    finish-IsRuled id j proof now s h runs sure =
        let cleaned : Bool = (cleanup_scratch scratch_name id 0 j.scratch s.disk).0 in
        let final : Job = final_job cleaned proof now j in
        let put : IsRuled (record s { jobs = upsert id final s.jobs }) =
          put-IsRuled s id j final h runs (final_job-Verified id cleaned proof now j sure) in
        ((λ holder e. absurd (ground (arith, e))), put.1, put.2)

    Step-IsRuled : (s t : Store) → Step s t → IsRuled s → IsRuled t
    Step-IsRuled _ _ (Step.submits producer nonce requirements now spawned s) h =
        submit-IsRuled producer nonce requirements now spawned s h
    Step-IsRuled _ _ (Step.starts id j s t runs went) h =
        let put : IsRuled
            (record s { jobs = upsert id (record j { status = Status.running }) s.jobs }) =
          put-IsRuled s id j (record j { status = Status.running }) h runs
            (λ e. absurd (ground (arith, e))) in
        let same : t ≡ record s { jobs = upsert id (record j { status = Status.running }) s.jobs } =
          start_same id j s t runs.1 went in
        subst IsRuled (sym same) put
    Step-IsRuled _ _ (Step.publishes id j k place s t runs running went) h =
        let k' : Job = record j { scratch = j.scratch ++ place ∷ [] } in
        let put : IsRuled (record s { jobs = upsert id k' s.jobs }) =
          put-IsRuled s id j k' h runs (λ e. absurd (ground (arith, e, running))) in
        subst IsRuled (sym (publish_same id j k place s t went)) put
    Step-IsRuled _ _ (Step.makes place s) h = h
    Step-IsRuled _ _ (Step.marks id place s) h = h
    Step-IsRuled _ _ (Step.fails id j now s runs) h =
        finish-IsRuled id j none now s h runs (λ p e. absurd (ground (arith, e)))
    Step-IsRuled _ _ (Step.succeeds id j proof now s runs sure) h =
        finish-IsRuled id j (some proof) now s h runs (λ p e. sure ∙ e)
    Step-IsRuled _ _ (Step.crashes s) h = unlocked-IsRuled s h

    -- If, while a process holds the lock, only its job is queued or running, there are at most 32
    -- records, and each job that counts as verified has the proof that the verification of its own
    -- requirements gave, then so it is after any sequence of submissions, writes of the process
    -- that holds the lock, and crashes.
    pub Steps-IsRuled : (s t : Store) → Steps s t → IsRuled s → IsRuled t
    Steps-IsRuled _ _ (Steps.stays s) h = h
    Steps-IsRuled _ _ (Steps.goes s t u before step) h =
        Step-IsRuled t u step (Steps-IsRuled s t before h)
