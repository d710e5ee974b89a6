-- ===== src/VerificationJobs.antt =====
-- src/session_search/storage/verification_jobs.py: the records of verification jobs, submit, poll
-- and the run of a job in its process, whose writes are steps that a crash may separate. The lock
-- is held by the process of one job or by nobody. Parameters: SHA-256 of the producer, the digest
-- and the size of a request, the names of scratch directories, the repositories and the verification.
pub mod Scratch
pub mod Retire
pub mod Reachable
pub mod Foreign
mod Examples
use Prim.Native.String
use session_search.Base.{
  ℕ, zero, suc, ◌+◌, ◌*◌, ◌^◌, ◌≤◌, String, Bool, true, false, not, ◌&&◌, ◌||◌, Option, none, some,
  List, [], ◌∷◌, ◌++◌, if◌then◌else◌, ◌==◌, Eq, string_eq, ltb, leb, length, lookup, upsert,
  is_digest,
}
use session_search.Base.Result.{Result, ok, err, value_error, os_error}
use session_search.VerificationJobs.Scratch.{Place, place_eq, Disk, cleanup_scratch}

abbrev pub ttl : ℕ
ttl = 900

abbrev pub max_jobs : ℕ
max_jobs = 32

pub data Status : Type 0 where
  queued running interrupted failed restore_verified expired : Status

pub record Requirement : Type 0 where
  pub session_id : String
  pub revision : String
  pub digest : String
  pub size : ℕ

pub record Job : Type 0 where
  pub owner : String
  pub nonce : String
  pub requirements : List Requirement
  pub status : Status
  pub expires_at : ℕ
  pub scratch : List Place
  pub proof : Option String

pub record Store : Type 0 where
  pub jobs : List (String × Job)
  pub disk : Disk
  pub lock : Option String

pub data Answer : Type 0 where
  unavailable busy : Answer
  answered : Status → String → String → Option (String × ℕ) → Answer

abbrev pub is_active : Status → Bool
is_active Status.queued = true
is_active Status.running = true
is_active _ = false

unfoldable pub check_requirements : List Requirement → Bool
check_requirements [] = true
check_requirements (r ∷ rs) =
    (ltb 0 (String.count r.session_id) && leb (String.count r.session_id) 512)
    && ((is_digest r.revision && is_digest r.digest)
        && ((ltb 0 r.size && leb r.size (32 * 1024 ^ 3)) && check_requirements rs))

abbrev pub ended : Status → ℕ → Job → Job
ended status now j = record j { status = status; expires_at = now + ttl }

-- `poll`
module _ (sha256 : String → String) where
  unfoldable pub poll : String → String → ℕ → Store → Result Answer
  poll producer job_id now s =
      if not (is_digest job_id) then err value_error else elim (lookup job_id s.jobs) [
        | none ↦ ok unavailable
        | some j ↦
            if not (j.owner == sha256 producer)
            then ok unavailable
            else if is_active j.status
            then elim s.lock [
              | none ↦ ok (answered Status.interrupted job_id j.nonce none)
              | some holder ↦ ok (answered j.status job_id j.nonce none)
            ]
            else if ltb j.expires_at now
            then ok (answered Status.expired job_id j.nonce none)
            else ok (
                answered j.status job_id j.nonce (elim j.status [
                  | Status.restore_verified ↦ elim j.proof [
                    | none ↦ none
                    | some p ↦ some (p, j.expires_at)
                  ]
                  | _ ↦ none
                ]))
      ]

-- A record of a job that nobody runs: it is marked, removed when it has expired, or stays.
unfoldable pub kept_record : ℕ → String → Job → List (String × Job)
kept_record now id j =
    if is_active j.status
    then (id, record (ended Status.interrupted now j) { scratch = [] }) ∷ []
    else if ltb j.expires_at now
    then []
    else (id, j) ∷ []

-- `run_job`: the record is read and marked as running.
unfoldable pub start_job : String → Store → Option Store
start_job job_id s = elim (lookup job_id s.jobs) [
  | none ↦ none
  | some j ↦ some (record s { jobs = upsert job_id (record j { status = Status.running }) s.jobs })
]

-- The intent to use a scratch directory is written, then the directory is made, then its marker.
unfoldable pub publish_scratch : String → Job → Place → Store → Option (Job × Store)
publish_scratch job_id j place s = elim (lookup place s.disk) [
  | some _ ↦ none
  | none ↦
      let j' : Job = record j { scratch = j.scratch ++ place ∷ [] } in
      some (j', record s { jobs = upsert job_id j' s.jobs })
]

abbrev pub make_directory : Place → Store → Store
make_directory place s = record s {
  disk = (place, record { symlink = false; marker = none; children = [] }) ∷ s.disk;
}

abbrev pub mark_directory : String → Place → Store → Store
mark_directory job_id place s = record s {
  disk = upsert place (record { symlink = false; marker = some job_id; children = [] }) s.disk;
}

-- The record at the end of `run_job`; a cleanup that fails makes the job fail.
unfoldable pub final_job : Bool → Option String → ℕ → Job → Job
final_job false proof now j = record (ended Status.failed now j) {
  proof = elim proof [ none ↦ j.proof | some p ↦ some p ];
}
final_job true none now j = record (ended Status.failed now j) { scratch = [] }
final_job true (some p) now j = record (ended Status.restore_verified now j) {
  scratch = [];
  proof = some p;
}

module _ (scratch_name : String → ℕ → String) where
  -- The loop of `submit` over the records; False stands for an early return.
  unfoldable pub retire : ℕ → List (String × Job) → Disk → Bool × List (String × Job) × Disk
  retire now [] disk = (true, [], disk)
  retire now ((id, j) ∷ jobs) disk =
      let (cleaned, left) = cleanup_scratch scratch_name id 0 j.scratch disk in
      let (done, kept, last) = retire now jobs left in
      if cleaned then (done, kept_record now id j ++ kept, last) else (false, (id, j) ∷ jobs, left)

  -- `submit`, from its lock on.
  unfoldable pub admit : String → Job → ℕ → Bool → Store → Result Answer × Store
  admit job_id job now spawned s =
      if ltb max_jobs (length s.jobs)
      then (ok unavailable, s)
      else let (done, kept, left) = retire now s.jobs s.disk in
        let swept : Store = record s { jobs = kept; disk = left } in
        if not done
        then (ok unavailable, swept)
        else if leb max_jobs (length kept)
        then (ok busy, swept)
        else if spawned
        then (
          ok (answered Status.queued job_id job.nonce none),
          record swept { jobs = upsert job_id job kept; lock = some job_id },
        )
        else (
          err os_error,
          record swept { jobs = upsert job_id (ended Status.failed now job) kept },
        )

  module _ (sha256 : String → String) (job_digest : String → String → List Requirement → String)
      (json_size : List Requirement → ℕ) where
    abbrev pub new_job : String → String → List Requirement → Job
    new_job producer nonce requirements = record {
      owner = sha256 producer;
      nonce = nonce;
      requirements = requirements;
      status = Status.queued;
      expires_at = 0;
      scratch = [];
      proof = none;
    }

    -- `submit`; `spawned` tells whether the process starts.
    unfoldable pub submit :
        String → String → List Requirement → ℕ → Bool → Store → Result Answer × Store
    submit producer nonce requirements now spawned s =
        let job_id : String = job_digest (sha256 producer) nonce requirements in
        let valid : Bool =
          is_digest nonce
          && ((leb 1 (length requirements) && leb (length requirements) 100)
              && (check_requirements requirements && leb (json_size requirements) 49152)) in
        if not valid then (err value_error, s) else elim (lookup job_id s.jobs) [
          | some j ↦ (poll sha256 producer job_id now s, s)
          | none ↦ elim s.lock [
            | some holder ↦ (ok busy, s)
            | none ↦ admit job_id (new_job producer nonce requirements) now spawned s
          ]
        ]

  -- The `finally` of `run_job`, with the proof if there is one.
  unfoldable pub finish_job : String → Job → Option String → ℕ → Store → Store
  finish_job job_id j proof now s =
      let (cleaned, left) = cleanup_scratch scratch_name job_id 0 j.scratch s.disk in
      record s {
        jobs = upsert job_id (final_job cleaned proof now j) s.jobs;
        disk = left;
        lock = none;
      }
