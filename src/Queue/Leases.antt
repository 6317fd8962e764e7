-- ===== src/Queue/Leases.antt =====
-- A lease is exclusive until it runs out.
use safe_signal_trader_v.Prelude.{
  ◌≤◌, String, eq_iff, false, some, List, [], ◌∷◌, ◌≡◌, ◌≢◌, ◌⊎◌, inl, inr, arith,
}
use safe_signal_trader_v.Prelude.Eq.{nat_eq}
use safe_signal_trader_v.Prelude.Dict.{get}
use safe_signal_trader_v.Domain.Enums.{JobStatus}
use safe_signal_trader_v.Domain.Models.{Uuid, Timestamp, OrderJob}
use safe_signal_trader_v.Queue.{
  Queue, claim, claimable, owned_by, heartbeat, complete, fail, mark_manual_review, lease_lost,
}
use safe_signal_trader_v.Queue.Steps.{
  Call, enqueue_call, claim_call, heartbeat_call, complete_call, fail_call, review_call,
  recover_call, step, run,
}
use safe_signal_trader_v.Queue.Finality.{
  claim_first-busy, recover_expired-live, enqueue-other, on_owned-other,
}

-- The job is leased to `owner` until the deadline.
pub record IsLeased (owner : String) (deadline : Timestamp) (job : OrderJob) : Type 0 where
  pub status : job.status ≡ JobStatus.claimed
  pub held : job.lease_owner ≡ some owner
  pub until : job.lease_until ≡ some deadline

-- A call about a job is by another worker, or about another job.
abbrev pub ByOther : Uuid → String → Uuid → String → Type 0
ByOther k owner id other = (id ≢ k) ⊎ (other ≢ owner)

-- The calls that others may make while the lease lasts.
abbrev pub Respects : Uuid → String → Timestamp → Call → Type 0
Respects k owner deadline (enqueue_call id created updated r) = id ≢ k
Respects k owner deadline (claim_call other seconds now) = now ≤ deadline
Respects k owner deadline (heartbeat_call id other seconds now now') = ByOther k owner id other
Respects k owner deadline (complete_call id other now) = ByOther k owner id other
Respects k owner deadline (fail_call id other error now) = ByOther k owner id other
Respects k owner deadline (review_call id other reason now) = ByOther k owner id other
Respects k owner deadline (recover_call now) = now ≤ deadline

abbrev pub AllRespect : Uuid → String → Timestamp → List Call → Type 0
AllRespect k owner deadline [] = Unit
AllRespect k owner deadline (c ∷ cs) = Respects k owner deadline c × AllRespect k owner deadline cs

module _ (k : Uuid) (owner : String) (deadline : Timestamp) (job : OrderJob)
    (leased : IsLeased owner deadline job) where
  leased_live : (now : Timestamp) → now ≤ deadline → lease_lost now job ≡ false
  unfolding lease_lost
  leased_live now h = rw (leased.status, leased.until) (ground arith)

  leased_busy : (now : Timestamp) → now ≤ deadline → claimable now job ≡ false
  unfolding claimable
  leased_busy now h = rw (leased.status, leased.until) (ground arith)

  not_owner :
      (id : Uuid) (other : String)
      → ByOther k owner id other
      → (id ≢ k) ⊎ (owned_by other job.lease_owner ≡ false)
  not_owner id other (inl ne) = inl ne
  not_owner id other (inr ne) = inr (rw leased.held (ground (arith, eq_iff owner other)))

  leased_step :
      (q : Queue) (c : Call)
      → get k q ≡ some job
      → Respects k owner deadline c
      → get k (step q c) ≡ some job
  unfolding step claim heartbeat complete fail mark_manual_review
  leased_step q (enqueue_call id created updated r) e f =
      enqueue-other k job id created updated r q e f
  leased_step q (claim_call other seconds now) e f =
      claim_first-busy k job other now _ q e (leased_busy now f)
  leased_step q (heartbeat_call id other seconds now now') e f =
      on_owned-other k job _ _ id other q e (not_owner id other f)
  leased_step q (complete_call id other now) e f =
      on_owned-other k job _ _ id other q e (not_owner id other f)
  leased_step q (fail_call id other error now) e f =
      on_owned-other k job _ _ id other q e (not_owner id other f)
  leased_step q (review_call id other reason now) e f =
      on_owned-other k job _ _ id other q e (not_owner id other f)
  leased_step q (recover_call now) e f = recover_expired-live k job now q e (leased_live now f)

  -- While a lease lasts it is exclusive: whatever calls other workers make, whatever calls are made on
  -- other jobs, and whatever claims and recoveries run up to the deadline, the job stays exactly as
  -- the owner left it, as long as no new job gets its id.
  pub run-leased :
      (q : Queue) (cs : List Call)
      → get k q ≡ some job
      → AllRespect k owner deadline cs
      → get k (run q cs) ≡ some job
  unfolding run
  run-leased q [] e f = e
  run-leased q (c ∷ cs) e f = run-leased (step q c) cs (leased_step q c e f.0) f.1
