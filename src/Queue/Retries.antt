-- ===== src/Queue/Retries.antt =====
-- `enqueue` is idempotent by client order id; a lost lease is not counted against `max_attempts`.
use safe_signal_trader_v.Prelude.{
  ℕ, zero, suc, ◌+◌, ◌*◌, String, eq_iff, Bool, true, Option, none, some, List, [], ◌∷◌, ◌≡◌, ◌≢◌,
  refl, ap, inl, inr, arith, ◌∙◌, Option-cases,
}
use safe_signal_trader_v.Prelude.Eq.{nat_eq}
use safe_signal_trader_v.Prelude.Dict.{get, put}
use safe_signal_trader_v.Domain.Enums.{JobStatus}
use safe_signal_trader_v.Domain.Models.{Uuid, Timestamp, OrderJob}
use safe_signal_trader_v.Queue.{
  Queue, Request, enqueue, known_job, find_client, new_job, holds_client_id, claim, claim_first,
  claimable, claimed_by, on_owned, heartbeat, complete, fail, mark_manual_review, recover_expired,
  lease_deadline,
}
use safe_signal_trader_v.Queue.Steps.{
  Call, enqueue_call, claim_call, heartbeat_call, complete_call, fail_call, review_call,
  recover_call, step, run,
}
use safe_signal_trader_v.Queue.Validity.{on_owned-cases}

-- Some job of the queue has the client order id.
abbrev IsKnown : String → Queue → Type 0
IsKnown c q = find_client c q ≢ none

find_client-put :
    (c : String) (id : Uuid) (job : OrderJob) (q : Queue)
    → find_client c q ≡ none
    → holds_client_id c job ≡ true
    → find_client c (put id job q) ≡ some job
unfolding find_client put
find_client-put c id job [] e h = ground arith
find_client-put c id job ((j, old) ∷ q) e h = ground (arith, find_client-put c id job q)

-- Calls never change a client order id, and a put over a job with the same one keeps it known.
find_client-put_same :
    (c : String) (id : Uuid) (old job : OrderJob) (q : Queue)
    → get id q ≡ some old
    → job.client_order_id ≡ old.client_order_id
    → IsKnown c q
    → IsKnown c (put id job q)
unfolding find_client put get
find_client-put_same c id old job [] e h known = absurd (known refl)
find_client-put_same c id old job ((j, other) ∷ q) e h known =
    ground (arith, find_client-put_same c id old job q)

find_client-claim_first :
    (c : String) (owner : String) (now until : Timestamp) (q : Queue)
    → IsKnown c q
    → IsKnown c (claim_first owner now until q).1
unfolding find_client claim_first
find_client-claim_first c owner now until [] known = known
find_client-claim_first c owner now until ((j, job) ∷ q) known =
    ground (arith, find_client-claim_first c owner now until q)

find_client-recover_expired :
    (c : String) (now : Timestamp) (q : Queue) → IsKnown c q → IsKnown c (recover_expired now q).1
unfolding find_client recover_expired
find_client-recover_expired c now [] known = known
find_client-recover_expired c now ((j, job) ∷ q) known =
    ground (arith, find_client-recover_expired c now q)

find_client-on_owned :
    (c : String) (ready : OrderJob → Bool) (change : OrderJob → OrderJob) (id : Uuid)
    (owner : String) (q : Queue)
    → ((job : OrderJob) → (change job).client_order_id ≡ job.client_order_id)
    → IsKnown c q
    → IsKnown c (on_owned ready change id owner q).1
find_client-on_owned c ready change id owner q keeps known =
    elim (on_owned-cases ready change id owner q) [
      | inl refused ↦ rw refused known
      | inr (job, found, _, _, done) ↦
          rw done (find_client-put_same c id job (change job) q found (keeps job) known)
    ]

-- a new job under a new id leaves the others where they are
find_client-put_new :
    (c : String) (id : Uuid) (job : OrderJob) (q : Queue)
    → get id q ≡ none
    → IsKnown c q
    → IsKnown c (put id job q)
unfolding find_client put get
find_client-put_new c id job [] e known = absurd (known refl)
find_client-put_new c id job ((j, other) ∷ q) e known =
    ground (arith, find_client-put_new c id job q)

-- `uuid4()` does not answer with an id that is in the queue.
abbrev pub NewId : Queue → Call → Type 0
NewId q (enqueue_call id created updated r) = get id q ≡ none
NewId q _ = Unit

abbrev pub AllNew : Queue → List Call → Type 0
AllNew q [] = Unit
AllNew q (c ∷ cs) = NewId q c × AllNew (step q c) cs

enqueue-known :
    (id : Uuid) (created updated : Timestamp) (r : Request) (q : Queue) (job : OrderJob)
    → known_job r.client_order_id q ≡ some job
    → enqueue id created updated r q ≡ (job, q)
unfolding enqueue
enqueue-known id created updated r q job e = rw (e, enqueue)

enqueue-new :
    (id : Uuid) (created updated : Timestamp) (r : Request) (q : Queue)
    → known_job r.client_order_id q ≡ none
    → enqueue id created updated r q
      ≡ (new_job id created updated r, put id (new_job id created updated r) q)
unfolding enqueue
enqueue-new id created updated r q e = rw (e, enqueue)

-- with a name that is not empty the search decides
known_job-named :
    (c : String) (name : Option String) (q : Queue)
    → name ≡ some c
    → c ≢ ""
    → known_job name q ≡ find_client c q
unfolding known_job
known_job-named c name q named nonempty = rw named (ground (arith, eq_iff c ""))

IsKnown-enqueue :
    (c : String) (id : Uuid) (created updated : Timestamp) (r : Request) (q : Queue)
    → get id q ≡ none
    → IsKnown c q
    → IsKnown c (enqueue id created updated r q).1
IsKnown-enqueue c id created updated r q new known =
    elim (Option-cases (known_job r.client_order_id q)) [
      | inl fresh ↦
          rw (enqueue-new id created updated r q fresh)
            (find_client-put_new c id (new_job id created updated r) q new known)
      | inr (old, found) ↦ rw (enqueue-known id created updated r q old found) known
    ]

IsKnown-step :
    (c : String) (q : Queue) (call : Call) → NewId q call → IsKnown c q → IsKnown c (step q call)
unfolding step claim heartbeat complete fail mark_manual_review
IsKnown-step c q (enqueue_call id created updated r) new known =
    IsKnown-enqueue c id created updated r q new known
IsKnown-step c q (claim_call owner seconds now) new known =
    find_client-claim_first c owner now _ q known
IsKnown-step c q (heartbeat_call id owner seconds now now') new known =
    find_client-on_owned c _ _ id owner q (λ job. refl) known
IsKnown-step c q (complete_call id owner now) new known =
    find_client-on_owned c _ _ id owner q (λ job. refl) known
IsKnown-step c q (fail_call id owner error now) new known =
    find_client-on_owned c _ _ id owner q (λ job. refl) known
IsKnown-step c q (review_call id owner reason now) new known =
    find_client-on_owned c _ _ id owner q (λ job. refl) known
IsKnown-step c q (recover_call now) new known = find_client-recover_expired c now q known

IsKnown-run :
    (c : String) (q : Queue) (cs : List Call) → AllNew q cs → IsKnown c q → IsKnown c (run q cs)
unfolding run
IsKnown-run c q [] new known = known
IsKnown-run c q (x ∷ cs) new known =
    IsKnown-run c (step q x) cs new.1 (IsKnown-step c q x new.0 known)

enqueue-IsKnown :
    (c : String) (id : Uuid) (created updated : Timestamp) (r : Request) (q : Queue)
    → r.client_order_id ≡ some c
    → c ≢ ""
    → IsKnown c (enqueue id created updated r q).1
enqueue-IsKnown c id created updated r q named nonempty = elim (Option-cases (find_client c q)) [
  | inl missing ↦
      let fresh = known_job-named c r.client_order_id q named nonempty ∙ missing in
      let mine : holds_client_id c (new_job id created updated r) ≡ true =
        rw named ((eq_iff c c).1 refl) in
      rw
        (
          enqueue-new id created updated r q fresh,
          find_client-put c id (new_job id created updated r) q missing mine,
        )
        (λ p. cc)
  | inr (job, found) ↦
      let old = known_job-named c r.client_order_id q named nonempty ∙ found in
      rw (enqueue-known id created updated r q job old, found) (λ p. cc)
]

-- One client order id, one job: once a request with a client order id that is not empty was
-- enqueued, every later request with that id, after any calls by any workers, adds nothing to the
-- queue, as long as the ids that `uuid4()` gives are new.
pub enqueue_again :
    (c : String) (id id' : Uuid) (t u t' u' : Timestamp) (r r' : Request) (q : Queue)
    (cs : List Call)
    → r.client_order_id ≡ some c
    → r'.client_order_id ≡ some c
    → c ≢ ""
    → AllNew (enqueue id t u r q).1 cs
    → let later = run (enqueue id t u r q).1 cs in (enqueue id' t' u' r' later).1 ≡ later
enqueue_again c id id' t u t' u' r r' q cs named named' nonempty new =
    let later = run (enqueue id t u r q).1 cs in
    let known = IsKnown-run c _ cs new (enqueue-IsKnown c id t u r q named nonempty) in
    elim (Option-cases (find_client c later)) [
      | inl missing ↦ absurd (known missing)
      | inr (job, found) ↦
          let old = known_job-named c r'.client_order_id later named' nonempty ∙ found in
          rw (enqueue-known id' t' u' r' later job old)
    ]

-- Claims by a worker that dies after each: the next claim comes when the lease has just run out.
unfoldable pub claims_and_deaths : String → ℕ → Timestamp → ℕ → List Call
claims_and_deaths owner seconds now zero = []
claims_and_deaths owner seconds now (suc n) =
    claim_call owner seconds now ∷ claims_and_deaths owner seconds (now + seconds * 1_000_000 + 1) n

stale :
    (owner : String) (seconds : ℕ) (now : Timestamp) (job : OrderJob)
    → claimable
        (now + seconds * 1_000_000 + 1)
        (claimed_by owner now (now + seconds * 1_000_000) job)
      ≡ true
unfolding claimable
stale owner seconds now job = ground arith

claim_alone :
    (k : Uuid) (job : OrderJob) (owner : String) (seconds : ℕ) (now : Timestamp)
    → claimable now job ≡ true
    → step ((k, job) ∷ []) (claim_call owner seconds now)
      ≡ (k, claimed_by owner now (now + seconds * 1_000_000) job) ∷ []
unfolding step claim claim_first lease_deadline
claim_alone k job owner seconds now free = ground arith

deaths_on :
    (n : ℕ) (k : Uuid) (job : OrderJob) (owner : String) (seconds : ℕ) (now : Timestamp)
    → claimable now job ≡ true
    → (final : OrderJob) × (run ((k, job) ∷ []) (claims_and_deaths owner seconds now (suc n))
        ≡ (k, final) ∷ [])
      × (final.attempt ≡ job.attempt + suc n)
      × (final.max_attempts ≡ job.max_attempts)
      × (final.status ≡ JobStatus.claimed)
      × (final.lease_owner ≡ some owner)
unfolding run claims_and_deaths
deaths_on zero k job owner seconds now free = (
  claimed_by owner now (now + seconds * 1_000_000) job,
  claim_alone k job owner seconds now free,
  omega arith,
  refl,
  refl,
  refl,
)
deaths_on (suc n) k job owner seconds now free =
    let job' = claimed_by owner now (now + seconds * 1_000_000) job in
    let next = now + seconds * 1_000_000 + 1 in
    let (final, path, count, limit, status, held) =
      deaths_on n k job' owner seconds next (stale owner seconds now job) in
    (
      final,
      ap (λ (q : Queue). run q (claims_and_deaths owner seconds next (suc n)))
            (claim_alone k job owner seconds now free)
          ∙ path,
      omega (arith, count),
      limit,
      status,
      held,
    )

-- A lease that is lost is not counted against `max_attempts`: in a queue of one job that is PENDING, a
-- worker can claim the job and let each lease run out any number of times, whatever the leases last
-- and whatever `max_attempts` is. At the end the worker has it, CLAIMED, with one attempt more for
-- each claim.
pub claims_of_lost_leases :
    (n : ℕ) (k : Uuid) (job : OrderJob) (owner : String) (seconds : ℕ) (now : Timestamp)
    → job.status ≡ JobStatus.pending
    → (final : OrderJob) × (run ((k, job) ∷ []) (claims_and_deaths owner seconds now (suc n))
        ≡ (k, final) ∷ [])
      × (final.attempt ≡ job.attempt + suc n)
      × (final.max_attempts ≡ job.max_attempts)
      × (final.status ≡ JobStatus.claimed)
      × (final.lease_owner ≡ some owner)
unfolding claimable
claims_of_lost_leases n k job owner seconds now pending =
    let free : claimable now job ≡ true = rw pending refl in
    deaths_on n k job owner seconds now free
