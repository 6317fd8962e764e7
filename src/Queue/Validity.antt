-- ===== src/Queue/Validity.antt =====
-- A lease is there exactly while a job is claimed, and jobs stand under their own ids.
use safe_signal_trader_v.Prelude.{
  String, Bool, true, false, ◌&&◌, Option, none, some, List, [], ◌∷◌, ◌≡◌, ◌≢◌, refl, ◌⊎◌, inl, inr,
  arith, sym, ◌∙◌, ◌==◌, Bool-cases, Option-cases,
}
use safe_signal_trader_v.Prelude.Eq.{nat_eq, ==_iff}
use safe_signal_trader_v.Prelude.Dict.{get, put, get-put_ne}
use safe_signal_trader_v.Domain.Enums.{JobStatus}
use safe_signal_trader_v.Domain.Models.{Uuid, Timestamp, OrderJob}
use safe_signal_trader_v.Queue.{
  Queue, Request, enqueue, known_job, new_job, claim, claim_first, claimable, on_owned, owned_by,
  heartbeat, complete, fail, mark_manual_review, recover_expired, lease_lost, extended, released,
  after_failure, is_claimed,
}
use safe_signal_trader_v.Queue.Steps.{
  Call, enqueue_call, claim_call, heartbeat_call, complete_call, fail_call, review_call,
  recover_call, step, run,
}

-- Owner and deadline of a job in each status; three statuses are never given by the queue.
abbrev pub LeaseMatches : JobStatus → Option String → Option Timestamp → Type 0
LeaseMatches JobStatus.claimed owner until = (owner ≢ none) × (until ≢ none)
LeaseMatches JobStatus.pending owner until = (owner ≡ none) × (until ≡ none)
LeaseMatches JobStatus.completed owner until = (owner ≡ none) × (until ≡ none)
LeaseMatches JobStatus.manual_review owner until = (owner ≡ none) × (until ≡ none)
LeaseMatches _ owner until = ⊥

abbrev pub IsConsistent : OrderJob → Type 0
IsConsistent job = LeaseMatches job.status job.lease_owner job.lease_until

-- Every job is consistent and stands under its own id, once.
abbrev pub IsValid : Queue → Type 0
IsValid [] = Unit
IsValid ((k, job) ∷ q) = (job.job_id ≡ k) × IsConsistent job × (get k q ≡ none) × IsValid q

pub get-IsConsistent :
    (k : Uuid) (q : Queue) (job : OrderJob)
    → IsValid q
    → get k q ≡ some job
    → (job.job_id ≡ k) × IsConsistent job
unfolding get
get-IsConsistent k [] job v e = absurd (ground arith)
get-IsConsistent k ((j, old) ∷ q) job v e = ground (arith, get-IsConsistent k q job v.3)

pub put-IsValid :
    (k : Uuid) (job : OrderJob) (q : Queue)
    → IsValid q
    → job.job_id ≡ k
    → IsConsistent job
    → IsValid (put k job q)
unfolding put
put-IsValid k job [] v e c = (e, c, unfold get in refl, tt)
put-IsValid k job ((j, old) ∷ q) v e c = elim (Bool-cases (j == k)) [
  | inl same ↦ rw same (e ∙ sym ((==_iff j k).0 same), c, v.2, v.3)
  | inr other ↦ rw other (
    v.0,
    v.1,
    get-put_ne k j job q (λ p. cc (other, (==_iff j k).1 (sym p))) ∙ v.2,
    put-IsValid k job q v.3 e c,
  )
]

-- A method on a job refuses and changes nothing, or writes to a job of the caller.
pub on_owned-cases :
    (ready : OrderJob → Bool) (change : OrderJob → OrderJob) (k : Uuid) (owner : String) (q : Queue)
    → (on_owned ready change k owner q ≡ (false, q))
      ⊎ ((job : OrderJob) × (get k q ≡ some job)
          × (owned_by owner job.lease_owner ≡ true)
          × (ready job ≡ true)
          × (on_owned ready change k owner q ≡ (true, put k (change job) q)))
unfolding on_owned
on_owned-cases ready change k owner q = elim (Option-cases (get k q)) [
  | inl missing ↦ inl (ground arith)
  | inr (job, found) ↦ elim (Bool-cases (owned_by owner job.lease_owner && ready job)) [
    | inl good ↦ inr (job, found, ground arith, ground arith, ground arith)
    | inr bad ↦ inl (ground arith)
  ]
]

-- A change that ends or extends a lease.
abbrev pub KeepsConsistent : (OrderJob → Bool) → (OrderJob → OrderJob) → Type 0
KeepsConsistent ready change =
    (job : OrderJob)
    → ready job ≡ true
    → IsConsistent job
    → ((change job).job_id ≡ job.job_id) × IsConsistent (change job)

on_owned-IsValid :
    (ready : OrderJob → Bool) (change : OrderJob → OrderJob) (k : Uuid) (owner : String) (q : Queue)
    → KeepsConsistent ready change
    → IsValid q
    → IsValid (on_owned ready change k owner q).1
on_owned-IsValid ready change k owner q keeps v = elim (on_owned-cases ready change k owner q) [
  | inl e ↦ rw e v
  | inr (job, found, _, fit, e) ↦
      let c = get-IsConsistent k q job v found in
      let kept = keeps job fit c.1 in rw e (put-IsValid k (change job) q v (kept.0 ∙ c.0) kept.1)
]

get-claim_first_none :
    (k : Uuid) (owner : String) (now until : Timestamp) (q : Queue)
    → get k q ≡ none
    → get k (claim_first owner now until q).1 ≡ none
unfolding claim_first get
get-claim_first_none k owner now until [] e = refl
get-claim_first_none k owner now until ((j, job) ∷ q) e =
    ground (arith, get-claim_first_none k owner now until q)

claim_first-IsValid :
    (owner : String) (now until : Timestamp) (q : Queue)
    → IsValid q
    → IsValid (claim_first owner now until q).1
unfolding claim_first
claim_first-IsValid owner now until [] v = tt
claim_first-IsValid owner now until ((k, job) ∷ q) v = elim (Bool-cases (claimable now job)) [
  | inl free ↦ rw free ((v.0, ((λ p. cc), (λ p. cc)), v.2, v.3))
  | inr busy ↦ rw busy (
      (
        v.0,
        v.1,
        get-claim_first_none k owner now until q v.2,
        claim_first-IsValid owner now until q v.3,
      ))
]

get-recover_expired_none :
    (k : Uuid) (now : Timestamp) (q : Queue)
    → get k q ≡ none
    → get k (recover_expired now q).1 ≡ none
unfolding recover_expired get
get-recover_expired_none k now [] e = refl
get-recover_expired_none k now ((j, job) ∷ q) e = ground (arith, get-recover_expired_none k now q)

recover_expired-IsValid :
    (now : Timestamp) (q : Queue) → IsValid q → IsValid (recover_expired now q).1
unfolding recover_expired
recover_expired-IsValid now [] v = tt
recover_expired-IsValid now ((k, job) ∷ q) v = elim (Bool-cases (lease_lost now job)) [
  | inl lost ↦
      rw lost (
        (
          v.0,
          (refl, refl),
          get-recover_expired_none k now q v.2,
          recover_expired-IsValid now q v.3,
        ))
  | inr kept ↦
      rw kept ((v.0, v.1, get-recover_expired_none k now q v.2, recover_expired-IsValid now q v.3))
]

enqueue-IsValid :
    (id : Uuid) (created updated : Timestamp) (r : Request) (q : Queue)
    → IsValid q
    → IsValid (enqueue id created updated r q).1
unfolding enqueue
enqueue-IsValid id created updated r q v = elim (Option-cases (known_job r.client_order_id q)) [
  | inl new ↦
      rw (new, enqueue) (put-IsValid id (new_job id created updated r) q v refl (refl, refl))
  | inr (job, known) ↦ rw (known, enqueue) v
]

extended-IsConsistent :
    (until now : Timestamp) (job : OrderJob)
    → is_claimed job ≡ true
    → IsConsistent job
    → IsConsistent (extended until now job)
extended-IsConsistent until now job fit c = ground arith

failed-IsConsistent :
    (error : String) (now : Timestamp) (job : OrderJob)
    → IsConsistent (released (after_failure job) (some error) now job)
failed-IsConsistent error now job = ground arith

-- No call breaks the queue: a valid queue stays valid.
pub step-IsValid : (q : Queue) (c : Call) → IsValid q → IsValid (step q c)
unfolding step claim heartbeat complete fail mark_manual_review
step-IsValid q (enqueue_call id created updated r) v = enqueue-IsValid id created updated r q v
step-IsValid q (claim_call owner seconds now) v = claim_first-IsValid owner now _ q v
step-IsValid q (heartbeat_call id owner seconds now now') v =
    on_owned-IsValid _ _ id owner q (λ job fit c. (refl, extended-IsConsistent _ now' job fit c)) v
step-IsValid q (complete_call id owner now) v =
    on_owned-IsValid _ _ id owner q (λ job fit c. (refl, (refl, refl))) v
step-IsValid q (fail_call id owner error now) v =
    on_owned-IsValid _ _ id owner q (λ job fit c. (refl, failed-IsConsistent error now job)) v
step-IsValid q (review_call id owner reason now) v =
    on_owned-IsValid _ _ id owner q (λ job fit c. (refl, (refl, refl))) v
step-IsValid q (recover_call now) v = recover_expired-IsValid now q v

-- After any sequence of calls on a valid queue (the empty one is), every job stands once, under its
-- own id, and has an owner and a deadline exactly while it is CLAIMED; no job is IN_PROGRESS, FAILED
-- or CANCELLED.
pub run-IsValid : (q : Queue) (cs : List Call) → IsValid q → IsValid (run q cs)
unfolding run
run-IsValid q [] v = v
run-IsValid q (c ∷ cs) v = run-IsValid (step q c) cs (step-IsValid q c v)
