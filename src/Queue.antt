-- ===== src/Queue.antt =====
-- infrastructure/queue/memory.py: jobs with claims, leases and recovery. The queue is the dict
-- `_jobs`, in insertion order. What the code reads from its surroundings is an argument: the clock
-- (`_utcnow()`, in microseconds, once for each call that the code makes) and the new `uuid4()`.
-- A job that is returned is the same object as the one in the dict; here it is a copy of it.
-- Lease times are not negative.
pub mod Steps
pub mod Validity
pub mod Claims
pub mod Leases
pub mod Finality
pub mod Retries
mod Tests
use safe_signal_trader_v.Prelude.{
  ℕ, ◌+◌, ◌*◌, String, str_eq, Bool, true, false, not, ◌&&◌, ◌||◌, Option, none, some, List, [],
  ◌∷◌, ltb, leb, if◌then◌else◌, length, select,
}
use safe_signal_trader_v.Prelude.Eq.{nat_eq}
use safe_signal_trader_v.Prelude.Dict
use safe_signal_trader_v.Prelude.Dict.{Dict, values}
use safe_signal_trader_v.Domain.Enums.{JobStatus, same_job_status}
use safe_signal_trader_v.Domain.Models.{Uuid, Timestamp, Object, OrderJob}

abbrev pub Queue : Type 0
Queue = Dict Uuid OrderJob

-- infrastructure/queue/jobs.py: `now + timedelta(seconds=seconds)`
unfoldable pub lease_deadline : Timestamp → ℕ → Timestamp
lease_deadline now seconds = now + seconds * 1_000_000

abbrev pub holds_client_id : String → OrderJob → Bool
holds_client_id c job = elim job.client_order_id [ none ↦ false | some d ↦ str_eq d c ]

-- the loop of `enqueue` over the jobs
unfoldable pub find_client : String → Queue → Option OrderJob
find_client c [] = none
find_client c ((k, job) ∷ q) = if holds_client_id c job then some job else find_client c q

-- The arguments of `enqueue`.
pub record Request : Type 0 where
  pub trade_id : Uuid
  pub job_type : String
  pub payload : Option Object
  pub client_order_id : Option String
  pub max_attempts : ℕ

-- `OrderJob(…)` in `enqueue`
abbrev pub new_job : Uuid → Timestamp → Timestamp → Request → OrderJob
new_job job_id created updated r = record {
  job_id = job_id;
  trade_id = r.trade_id;
  job_type = r.job_type;
  status = JobStatus.pending;
  payload = elim r.payload [ none ↦ Object.empty | some p ↦ p ];
  client_order_id = r.client_order_id;
  attempt = 0;
  max_attempts = r.max_attempts;
  lease_owner = none;
  lease_until = none;
  created_at = created;
  updated_at = updated;
  last_error = none;
}

-- `if client_order_id:`, and the search; `none` goes on to make a new job
unfoldable pub known_job : Option String → Queue → Option OrderJob
known_job none q = none
known_job (some c) q = if str_eq c "" then none else find_client c q

unfoldable pub enqueue : Uuid → Timestamp → Timestamp → Request → Queue → OrderJob × Queue
enqueue job_id created updated r q = elim (known_job r.client_order_id q) [
  | some job ↦ (job, q)
  | none ↦ (new_job job_id created updated r, Dict.put job_id (new_job job_id created updated r) q)
]

abbrev pub expired : Timestamp → Option Timestamp → Bool
expired now none = false
expired now (some t) = ltb t now

-- `job.status == CLAIMED and job.lease_until is not None and job.lease_until < now`
unfoldable pub lease_lost : Timestamp → OrderJob → Bool
lease_lost now job = same_job_status job.status JobStatus.claimed && expired now job.lease_until

unfoldable pub claimable : Timestamp → OrderJob → Bool
unfolding lease_lost
claimable now job = same_job_status job.status JobStatus.pending || lease_lost now job

abbrev pub claimed_by : String → Timestamp → Timestamp → OrderJob → OrderJob
claimed_by owner now until job = record job {
  status = JobStatus.claimed;
  lease_owner = some owner;
  lease_until = some until;
  attempt = job.attempt + 1;
  updated_at = now;
}

-- the loop of `claim`
unfoldable pub claim_first : String → Timestamp → Timestamp → Queue → Option OrderJob × Queue
claim_first owner now until [] = (none, [])
claim_first owner now until ((k, job) ∷ q) =
    let (found, rest) = claim_first owner now until q in
    if claimable now job
    then (some (claimed_by owner now until job), (k, claimed_by owner now until job) ∷ q)
    else (found, (k, job) ∷ rest)

unfoldable pub claim : String → ℕ → Timestamp → Queue → Option OrderJob × Queue
claim owner lease_seconds now q = claim_first owner now (lease_deadline now lease_seconds) q

-- `job.lease_owner == owner`
abbrev pub owned_by : String → Option String → Bool
owned_by owner none = false
owned_by owner (some o) = str_eq o owner

-- A method on a job: `None` and a job of another owner are refused, any other is written to.
unfoldable pub on_owned :
    (OrderJob → Bool) → (OrderJob → OrderJob) → Uuid → String → Queue → Bool × Queue
on_owned ready change job_id owner q = elim (Dict.get job_id q) [
  | none ↦ (false, q)
  | some job ↦
      if owned_by owner job.lease_owner && ready job
      then (true, Dict.put job_id (change job) q)
      else (false, q)
]

abbrev pub always : OrderJob → Bool
always job = true

abbrev pub is_claimed : OrderJob → Bool
is_claimed job = same_job_status job.status JobStatus.claimed

-- `heartbeat` reads the clock twice
abbrev pub extended : Timestamp → Timestamp → OrderJob → OrderJob
extended until now job = record job { lease_until = some until; updated_at = now }

unfoldable pub heartbeat : Uuid → String → ℕ → Timestamp → Timestamp → Queue → Bool × Queue
heartbeat job_id owner lease_seconds now now' q =
    on_owned is_claimed (extended (lease_deadline now lease_seconds) now') job_id owner q

-- the end of a lease
abbrev pub released : JobStatus → Option String → Timestamp → OrderJob → OrderJob
released status error now job = record job {
  status = status;
  last_error = error;
  lease_owner = none;
  lease_until = none;
  updated_at = now;
}

unfoldable pub complete : Uuid → String → Timestamp → Queue → Bool × Queue
complete job_id owner now q =
    on_owned always (λ job. released JobStatus.completed job.last_error now job) job_id owner q

-- a retry, or a manual review after the last attempt
abbrev pub after_failure : OrderJob → JobStatus
after_failure job =
    if leb job.max_attempts job.attempt then JobStatus.manual_review else JobStatus.pending

unfoldable pub fail : Uuid → String → String → Timestamp → Queue → Bool × Queue
fail job_id owner error now q =
    on_owned always (λ job. released (after_failure job) (some error) now job) job_id owner q

unfoldable pub mark_manual_review : Uuid → String → String → Timestamp → Queue → Bool × Queue
mark_manual_review job_id owner reason now q =
    on_owned always (released JobStatus.manual_review (some reason) now) job_id owner q

unfoldable pub recover_expired : Timestamp → Queue → ℕ × Queue
unfolding lease_lost
recover_expired now [] = (0, [])
recover_expired now ((k, job) ∷ q) =
    let (n, rest) = recover_expired now q in
    if lease_lost now job
    then (n + 1, (k, released JobStatus.pending job.last_error now job) ∷ rest)
    else (n, (k, job) ∷ rest)

unfoldable pub list_by_status : JobStatus → Queue → List OrderJob
list_by_status status q = select (λ (j : OrderJob). same_job_status j.status status) (values q)

unfoldable pub size : Queue → ℕ
size q = length q
