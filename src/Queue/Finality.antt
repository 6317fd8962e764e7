-- ===== src/Queue/Finality.antt =====
-- A job that is COMPLETED or in MANUAL_REVIEW is never touched again.
use safe_signal_trader_v.Prelude.{
  String, Bool, false, none, some, List, [], ◌∷◌, ◌≡◌, ◌≢◌, ◌⊎◌, inl, inr, arith, ◌==◌, ◌∙◌,
  Bool-cases, Option-cases,
}
use safe_signal_trader_v.Prelude.Eq.{nat_eq, ==_iff}
use safe_signal_trader_v.Prelude.Dict.{get, get-put_ne}
use safe_signal_trader_v.Domain.Enums.{JobStatus}
use safe_signal_trader_v.Domain.Models.{Uuid, Timestamp, OrderJob}
use safe_signal_trader_v.Queue.{
  Queue, Request, enqueue, known_job, claim, claim_first, claimable, on_owned, owned_by, heartbeat,
  complete, fail, mark_manual_review, recover_expired, lease_lost,
}
use safe_signal_trader_v.Queue.Steps.{
  Call, enqueue_call, claim_call, heartbeat_call, complete_call, fail_call, review_call,
  recover_call, step, run,
}
use safe_signal_trader_v.Queue.Validity.{IsValid, IsConsistent, get-IsConsistent, on_owned-cases}

module _ (k : Uuid) (job : OrderJob) where
  pub claim_first-busy :
      (owner : String) (now until : Timestamp) (q : Queue)
      → get k q ≡ some job
      → claimable now job ≡ false
      → get k (claim_first owner now until q).1 ≡ some job
  unfolding claim_first get
  claim_first-busy owner now until [] e b = e
  claim_first-busy owner now until ((j, other) ∷ q) e b =
      ground (arith, claim_first-busy owner now until q)

  pub recover_expired-live :
      (now : Timestamp) (q : Queue)
      → get k q ≡ some job
      → lease_lost now job ≡ false
      → get k (recover_expired now q).1 ≡ some job
  unfolding recover_expired get
  recover_expired-live now [] e b = e
  recover_expired-live now ((j, other) ∷ q) e b = ground (arith, recover_expired-live now q)

  pub enqueue-other :
      (id : Uuid) (created updated : Timestamp) (r : Request) (q : Queue)
      → get k q ≡ some job
      → id ≢ k
      → get k (enqueue id created updated r q).1 ≡ some job
  unfolding enqueue
  enqueue-other id created updated r q e h = elim (Option-cases (known_job r.client_order_id q)) [
    | inl new ↦ rw (new, enqueue) (get-put_ne id k _ q h ∙ e)
    | inr (old, known) ↦ rw (known, enqueue) e
  ]

  -- A method of a caller that is not the owner, or on another job.
  pub on_owned-other :
      (ready : OrderJob → Bool) (change : OrderJob → OrderJob) (id : Uuid) (owner : String)
      (q : Queue)
      → get k q ≡ some job
      → (id ≢ k) ⊎ (owned_by owner job.lease_owner ≡ false)
      → get k (on_owned ready change id owner q).1 ≡ some job
  on_owned-other ready change id owner q e h = elim (on_owned-cases ready change id owner q) [
    | inl refused ↦ rw refused e
    | inr (found, f, o, _, done) ↦ elim h [
      | inl ne ↦ rw done (get-put_ne id k (change found) q ne ∙ e)
      | inr no_owner ↦ elim (Bool-cases (id == k)) [
        | inl same ↦ absurd (ground (arith, f, e))
        | inr ne ↦ rw done (get-put_ne id k (change found) q (λ p. cc (ne, (==_iff id k).1 p)) ∙ e)
      ]
    ]
  ]

-- The queue's ids are new: no `enqueue` is given the id `k`.
abbrev pub Fresh : Uuid → Call → Type 0
Fresh k (enqueue_call id created updated r) = id ≢ k
Fresh k _ = Unit

abbrev pub AllFresh : Uuid → List Call → Type 0
AllFresh k [] = Unit
AllFresh k (c ∷ cs) = Fresh k c × AllFresh k cs

abbrev pub IsFinal : OrderJob → Type 0
IsFinal job = (job.status ≡ JobStatus.completed) ⊎ (job.status ≡ JobStatus.manual_review)

module _ (k : Uuid) (job : OrderJob) (final : IsFinal job) (released : job.lease_owner ≡ none) where
  final_busy : (now : Timestamp) → claimable now job ≡ false
  unfolding claimable
  final_busy now = ground arith

  final_live : (now : Timestamp) → lease_lost now job ≡ false
  unfolding lease_lost
  final_live now = ground arith

  unowned : (owner : String) → owned_by owner job.lease_owner ≡ false
  unowned owner = rw released

  final_step : (q : Queue) (c : Call) → get k q ≡ some job → Fresh k c → get k (step q c) ≡ some job
  unfolding step claim heartbeat complete fail mark_manual_review
  final_step q (enqueue_call id created updated r) e f =
      enqueue-other k job id created updated r q e f
  final_step q (claim_call owner seconds now) e f =
      claim_first-busy k job owner now _ q e (final_busy now)
  final_step q (heartbeat_call id owner seconds now now') e f =
      on_owned-other k job _ _ id owner q e (inr (unowned owner))
  final_step q (complete_call id owner now) e f =
      on_owned-other k job _ _ id owner q e (inr (unowned owner))
  final_step q (fail_call id owner error now) e f =
      on_owned-other k job _ _ id owner q e (inr (unowned owner))
  final_step q (review_call id owner reason now) e f =
      on_owned-other k job _ _ id owner q e (inr (unowned owner))
  final_step q (recover_call now) e f = recover_expired-live k job now q e (final_live now)

  final_run :
      (q : Queue) (cs : List Call)
      → get k q ≡ some job
      → AllFresh k cs
      → get k (run q cs) ≡ some job
  unfolding run
  final_run q [] e f = e
  final_run q (c ∷ cs) e f = final_run (step q c) cs (final_step q c e f.0) f.1

final_released : (job : OrderJob) → IsConsistent job → IsFinal job → job.lease_owner ≡ none
final_released job c f = ground arith

-- Once a job of a valid queue is COMPLETED or in MANUAL_REVIEW, no sequence of calls, by whatever
-- workers and at whatever times, changes any of its fields, as long as no new job gets its id.
pub run-final :
    (q : Queue) (cs : List Call) (k : Uuid) (job : OrderJob)
    → IsValid q
    → get k q ≡ some job
    → IsFinal job
    → AllFresh k cs
    → get k (run q cs) ≡ some job
run-final q cs k job v e final fresh =
    final_run k job final (final_released job (get-IsConsistent k q job v e).1 final) q cs e fresh
