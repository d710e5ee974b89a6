-- ===== src/VerificationJobs/Examples.antt =====
-- A job runs to its proof, and a crash leaves one that the next submission interrupts.
use Prim.Native.String
use session_search.Base.{
  is_digest, codes, all_hex, ℕ, ◌≡◌, ◌≢◌, refl, ap, arith, String, true, false, Option, none, some,
  List, [], ◌∷◌, lookup, upsert, string_dec, ℕ_discrete, string_eq,
}
use session_search.VerificationJobs.{
  Job, Status, Store, Requirement, submit, finish_job, admit, retire, check_requirements,
}
use session_search.VerificationJobs.Scratch.{Place, place_eq, Scratch, cleanup_scratch}
use session_search.VerificationJobs.Reachable.{IsRuled, Step, Steps, Steps-IsRuled}
use session_search.VerificationJobs.Foreign.{cleanup_scratch_foreign}

abbrev empty : Store
empty = record { jobs = []; disk = []; lock = none }

abbrev verify : List Requirement → Option String
verify rs = some "proof"

abbrev scratch_name : String → ℕ → String
scratch_name id index = "scratch"

abbrev plain : String → String
plain text = text

abbrev job_digest : String → String → List Requirement → String
job_digest owner nonce requirements = nonce

abbrev json_size : List Requirement → ℕ
json_size rs = 2

abbrev nonce : String
nonce = "aaaaaaaaaaaaaaaaaaaaaaaaaaaaaaaaaaaaaaaaaaaaaaaaaaaaaaaaaaaaaaaa"

abbrev requirement : Requirement
requirement = record { session_id = "s"; revision = nonce; digest = nonce; size = 4 }

abbrev queued : Store
queued =
    (submit scratch_name plain job_digest json_size "laptop" nonce (requirement ∷ []) 7 true
      empty).1

abbrev job : Job
job = record {
  owner = "laptop";
  nonce = nonce;
  requirements = requirement ∷ [];
  status = Status.queued;
  expires_at = 0;
  scratch = [];
  proof = none;
}

queued_job : (queued.lock ≡ some nonce) × (lookup nonce queued.jobs ≡ some job)
unfolding submit is_digest ℕ_discrete codes all_hex check_requirements lookup admit retire upsert
    string_dec
queued_job = (refl, refl)

abbrev finished : Store
finished = finish_job scratch_name nonce job (some "proof") 9 queued

run : Steps verify scratch_name plain job_digest json_size empty finished
run =
    Steps.goes empty queued finished
      (Steps.goes empty empty queued (Steps.stays empty)
        (Step.submits "laptop" nonce (requirement ∷ []) 7 true empty))
      (Step.succeeds nonce job "proof" 9 queued queued_job refl)

Steps-IsRuled_example : IsRuled verify finished
Steps-IsRuled_example =
    Steps-IsRuled verify scratch_name plain job_digest json_size empty finished run
      ((λ holder e. tt), omega arith, tt)

abbrev place : Place
place = record { parent = "/tmp"; name = "scratch"; absolute = true }

abbrev theirs : Scratch
theirs = record { symlink = false; marker = some "bb"; children = [] }

owners_differ : ◌≢◌ {A = String} "bb" "a"
owners_differ e = (let t : Path ℕ 2 1 = ap String.count e in omega arith)

place_found : lookup place ((place, theirs) ∷ []) ≡ some theirs
unfolding lookup
place_found = ground arith

cleanup_scratch_foreign_example :
    lookup place (cleanup_scratch scratch_name "a" 0 (place ∷ []) ((place, theirs) ∷ [])).1
    ≡ some theirs
cleanup_scratch_foreign_example =
    cleanup_scratch_foreign scratch_name "a" 0 (place ∷ []) place ((place, theirs) ∷ []) theirs "bb"
      place_found refl owners_differ
