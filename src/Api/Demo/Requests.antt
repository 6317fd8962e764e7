-- ===== src/Api/Demo/Requests.antt =====
-- The requests to the demo as steps of one machine, and what they are for the queue.
use safe_signal_trader_v.Prelude.{
  ◌+◌, String, Option, none, some, List, [], ◌∷◌, ◌++◌, ◌≡◌, refl, sym, ap, ◌∙◌, arith,
}
use safe_signal_trader_v.Domain.Enums.{JobStatus}
use safe_signal_trader_v.Domain.Models.{Uuid, Timestamp}
use safe_signal_trader_v.Queue.{Queue, list_by_status, size}
use safe_signal_trader_v.Queue.Steps.{
  Call, enqueue_call, claim_call, complete_call, fail_call, step, run,
}
use safe_signal_trader_v.Queue.Validity.{IsValid, run-IsValid}
use safe_signal_trader_v.Api.State.{Library, Reads, DemoState, ParseRequest, RiskRequest}
use safe_signal_trader_v.Api.Demo.{parse_signal, analyze}
use safe_signal_trader_v.Api.Demo.Playground.{
  QueueReads, QueueEnqueueRequest, queue_status, queue_enqueue, queue_claim, queue_complete,
  queue_fail, enqueue_request, count_of,
}

-- A request with all that it reads. A GET request (`view`) writes nothing.
pub data DemoRequest : Type 0 where
  view : DemoRequest
  parse_request : Reads → ParseRequest → DemoRequest
  analyze_request : Reads → RiskRequest → DemoRequest
  enqueue_post : QueueReads → QueueEnqueueRequest → DemoRequest
  claim_post : String → Timestamp → DemoRequest
  complete_post : String → String → Timestamp → DemoRequest
  fail_post : String → String → String → Timestamp → DemoRequest

-- a call on the job with this id, if the text is a UUID
abbrev pub on_job : Option Uuid → (Uuid → Call) → List Call
on_job none call = []
on_job (some id) call = call id ∷ []

module _ (lib : Library) where
  unfoldable pub serve : DemoState → DemoRequest → DemoState
  serve demo view = demo
  serve demo (parse_request r body) = (parse_signal lib r body demo).1
  serve demo (analyze_request r body) = (analyze lib r body demo).1
  serve demo (enqueue_post r body) = (queue_enqueue lib r body demo).1
  serve demo (claim_post owner now) = (queue_claim owner now demo).1
  serve demo (complete_post job_id owner now) = (queue_complete lib job_id owner now demo).1
  serve demo (fail_post job_id owner error now) = (queue_fail lib job_id owner error now demo).1

  unfoldable pub serve_all : DemoState → List DemoRequest → DemoState
  serve_all demo [] = demo
  serve_all demo (d ∷ ds) = serve_all (serve demo d) ds

  -- What a request is for the queue.
  abbrev pub calls_of : DemoRequest → List Call
  calls_of view = []
  calls_of (parse_request r body) = []
  calls_of (analyze_request r body) = []
  calls_of (enqueue_post r body) =
      enqueue_call r.job_id r.created r.updated (enqueue_request lib r body) ∷ []
  calls_of (claim_post owner now) = claim_call owner 60 now ∷ []
  calls_of (complete_post job_id owner now) =
      on_job (lib.uuid_of job_id) (λ id. complete_call id owner now)
  calls_of (fail_post job_id owner error now) =
      on_job (lib.uuid_of job_id) (λ id. fail_call id owner error now)

  abbrev pub all_calls : List DemoRequest → List Call
  all_calls [] = []
  all_calls (d ∷ ds) = calls_of d ++ all_calls ds

  serve-run :
      (demo : DemoState) (d : DemoRequest) → (serve demo d).queue ≡ run demo.queue (calls_of d)
  unfolding serve parse_signal analyze queue_enqueue queue_claim queue_complete queue_fail run step
  serve-run demo view = refl
  serve-run demo (parse_request r body) = ground arith
  serve-run demo (analyze_request r body) = ground arith
  serve-run demo (enqueue_post r body) = refl
  serve-run demo (claim_post owner now) = refl
  serve-run demo (complete_post job_id owner now) = ground arith
  serve-run demo (fail_post job_id owner error now) = ground arith

run-append : (q : Queue) (cs ds : List Call) → run q (cs ++ ds) ≡ run (run q cs) ds
unfolding run
run-append q [] ds = refl
run-append q (c ∷ cs) ds = run-append (step q c) cs ds

module _ (lib : Library) where
  -- The queue is what the calls of the requests make of it.
  pub serve_all-run :
      (demo : DemoState) (ds : List DemoRequest)
      → (serve_all lib demo ds).queue ≡ run demo.queue (all_calls lib ds)
  unfolding serve_all run
  serve_all-run demo [] = refl
  serve_all-run demo (d ∷ ds) =
      serve_all-run (serve lib demo d) ds
      ∙ ap (λ (q : Queue). run q (all_calls lib ds)) (serve-run lib demo d)
      ∙ sym (run-append demo.queue (calls_of lib d) (all_calls lib ds))

-- A valid queue holds only jobs of the four statuses that are counted.
counted_jobs :
    (q : Queue)
    → IsValid q
    → count_of JobStatus.pending q
        + count_of JobStatus.claimed q
        + count_of JobStatus.completed q
        + count_of JobStatus.manual_review q
      ≡ size q
unfolding list_by_status size
counted_jobs [] v = refl
counted_jobs ((k, job) ∷ q) v = ground (arith, counted_jobs q v.3)

-- After any requests to a demo with a valid queue (the empty one is), the page of the queue accounts
-- for every job: the jobs that are pending, claimed, completed or in manual review are all there are.
pub queue_status-accounts :
    (lib : Library) (demo : DemoState) (ds : List DemoRequest)
    → IsValid demo.queue
    → let s = queue_status (serve_all lib demo ds) in
      s.pending + s.claimed + s.completed + s.manual_review ≡ s.size
unfolding queue_status
queue_status-accounts lib demo ds v =
    let q = run demo.queue (all_calls lib ds) in
    let sum = counted_jobs q (run-IsValid demo.queue (all_calls lib ds) v) in
    rw (serve_all-run lib demo ds) sum
