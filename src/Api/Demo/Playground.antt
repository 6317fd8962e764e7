-- ===== src/Api/Demo/Playground.antt =====
-- api/demo.py: the endpoints that play with the queue.
use safe_signal_trader_v.Prelude.{
  ℕ, zero, suc, ◌-◌, String, str_eq, true, Bool, Option, none, some, List, [], ◌∷◌, length,
  if◌then◌else◌,
}
use Prim.Native.String.{◌++◌ as joined}
use safe_signal_trader_v.Prelude.Dict.{values}
use safe_signal_trader_v.Outcome.{value_error}
use safe_signal_trader_v.Domain.Enums.{JobStatus}
use safe_signal_trader_v.Domain.Models.{Uuid, Timestamp, Json, Object, OrderJob}
use safe_signal_trader_v.Queue
use safe_signal_trader_v.Queue.{Queue, Request}
use safe_signal_trader_v.Api.State.{Library, DemoState, Response, answered, server_error}

-- What an endpoint of the queue reads: the clock and new UUIDs.
pub record QueueReads : Type 0 where
  pub trade_id : Uuid
  pub random_id : Uuid
  pub job_id : Uuid
  pub created : Timestamp
  pub updated : Timestamp

pub record QueueEnqueueRequest : Type 0 where
  pub job_type : String
  pub client_order_id : Option String

-- `a or b`
abbrev pub or_text : Option String → String → String
or_text none b = b
or_text (some a) b = if str_eq a "" then b else a

-- The answer of /queue.
pub record QueueStatus : Type 0 where
  pub size : ℕ
  pub pending : ℕ
  pub claimed : ℕ
  pub completed : ℕ
  pub manual_review : ℕ
  pub jobs : List OrderJob

unfoldable pub drop {ℓ} : {A : Type ℓ} → ℕ → List A → List A
drop zero xs = xs
drop (suc n) [] = []
drop (suc n) (_ ∷ xs) = drop n xs

-- `xs[-n:]`
unfoldable pub last_of {ℓ} : {A : Type ℓ} → ℕ → List A → List A
unfolding drop
last_of n xs = drop (length xs - n) xs

abbrev pub count_of : JobStatus → Queue → ℕ
count_of status q = length (Queue.list_by_status status q)

unfoldable pub queue_status : DemoState → QueueStatus
queue_status demo = record {
  size = Queue.size demo.queue;
  pending = count_of JobStatus.pending demo.queue;
  claimed = count_of JobStatus.claimed demo.queue;
  completed = count_of JobStatus.completed demo.queue;
  manual_review = count_of JobStatus.manual_review demo.queue;
  jobs = last_of 20 (values demo.queue);
}

-- `{"demo": True}`
abbrev pub demo_payload : Object
demo_payload = Object.member "demo" (Json.boolean true) Object.empty

-- `queue_claim`, with a lease of a minute
unfoldable pub queue_claim : String → Timestamp → DemoState → Option OrderJob × DemoState
queue_claim owner now demo =
    let (job, q) = Queue.claim owner 60 now demo.queue in (job, record demo { queue = q })

-- the answer of a queue's method, in the response
abbrev pub told : Bool × Queue → DemoState → Response Bool × DemoState
told (done, q) demo = (answered done, record demo { queue = q })

-- `UUID(job_id)` raises at a text that is none
abbrev pub bad_uuid : Response Bool
bad_uuid = server_error (value_error "badly formed hexadecimal UUID string")

module _ (lib : Library) where
  -- `queue_enqueue`
  abbrev pub enqueue_request : QueueReads → QueueEnqueueRequest → Request
  enqueue_request r body = record {
    trade_id = r.trade_id;
    job_type = body.job_type;
    payload = some demo_payload;
    client_order_id =
        some (or_text body.client_order_id (joined "demo-" (lib.short_hex r.random_id)));
    max_attempts = 5;
  }

  unfoldable pub queue_enqueue : QueueReads → QueueEnqueueRequest → DemoState → OrderJob × DemoState
  queue_enqueue r body demo =
      let (job, q) =
        Queue.enqueue r.job_id r.created r.updated (enqueue_request r body) demo.queue in
      (job, record demo { queue = q })

  unfoldable pub queue_complete :
      String → String → Timestamp → DemoState → Response Bool × DemoState
  queue_complete job_id owner now demo = elim (lib.uuid_of job_id) [
    | none ↦ (bad_uuid, demo)
    | some id ↦ told (Queue.complete id owner now demo.queue) demo
  ]

  unfoldable pub queue_fail :
      String → String → String → Timestamp → DemoState → Response Bool × DemoState
  queue_fail job_id owner error now demo = elim (lib.uuid_of job_id) [
    | none ↦ (bad_uuid, demo)
    | some id ↦ told (Queue.fail id owner error now demo.queue) demo
  ]
