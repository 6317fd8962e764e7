-- ===== src/Queue/Tests.antt =====
-- Two jobs, 1 claimed by "w1" until 30 seconds and 2 pending, under the calls of other workers.
use safe_signal_trader_v.Prelude.{
  String, eq_iff, true, false, none, some, List, [], ◌∷◌, ◌≡◌, ◌≢◌, inl, inr, refl, arith, All, ◌⊎◌,
}
use safe_signal_trader_v.Prelude.Eq.{nat_eq}
use safe_signal_trader_v.Prelude.Dict.{get, put}
use safe_signal_trader_v.Domain.Enums.{JobStatus}
use safe_signal_trader_v.Domain.Models.{Uuid, OrderJob}
use safe_signal_trader_v.Queue.{
  Queue, Request, new_job, enqueue, claim, claim_first, claimable, claimed_by, released, lease_lost,
  lease_deadline, on_owned, complete, recover_expired,
}
use safe_signal_trader_v.Queue.Steps.{Call, claim_call, complete_call, recover_call, fail_call, run}
use safe_signal_trader_v.Queue.Validity.{IsValid, run-IsValid}
use safe_signal_trader_v.Queue.Finality.{run-final}
use safe_signal_trader_v.Queue.Leases.{IsLeased, AllRespect, run-leased}
use safe_signal_trader_v.Queue.Claims.{
  Handed, IsFree, LeaseLost, Recovered, claim_cases, recover_expired-done,
}
use safe_signal_trader_v.Queue.Retries.{enqueue_again, claims_and_deaths, claims_of_lost_leases}

abbrev entry : Request
entry = record {
  trade_id = 40;
  job_type = "entry";
  payload = none;
  client_order_id = some "sst-1-a1";
  max_attempts = 2;
}

abbrev waiting : OrderJob
waiting = new_job 2 0 0 entry

abbrev held : OrderJob
held = claimed_by "w1" 0 30_000_000 (new_job 1 0 0 (record entry { client_order_id = none }))

abbrev finished : OrderJob
finished = released JobStatus.completed none 7 held

abbrev two_jobs : Queue
two_jobs = (1, held) ∷ (2, waiting) ∷ []

two_jobs-IsValid : IsValid two_jobs
unfolding get
two_jobs-IsValid =
    (refl, (λ e. ground arith, λ e. ground arith), refl, (refl, (refl, refl), refl, tt))

-- another worker claims and loses job 2, tries to end job 1, and recovers at the deadline
abbrev others : List Call
others =
    claim_call "w2" 5 1_000_000
    ∷ complete_call 1 "w2" 2_000_000
    ∷ fail_call 2 "w2" "timeout" 3_000_000
    ∷ recover_call 30_000_000
    ∷ []

held-IsLeased : IsLeased "w1" 30_000_000 held
held-IsLeased = record { status = refl; held = refl; until = refl }

held_by_w1 : get 1 two_jobs ≡ some held
unfolding get
held_by_w1 = refl

abbrev other_name : String
other_name = "w2"

other_worker : other_name ≢ "w1"
other_worker e = cc ((eq_iff other_name "w1").1 e)

others-AllRespect : AllRespect 1 "w1" 30_000_000 others
others-AllRespect = (omega arith, (inr other_worker, (inl (λ e. ground arith), (omega arith, tt))))

run-leased_example : get 1 (run two_jobs others) ≡ some held
run-leased_example =
    run-leased 1 "w1" 30_000_000 held held-IsLeased two_jobs others held_by_w1 others-AllRespect

run-IsValid_example : IsValid (run two_jobs others)
run-IsValid_example = run-IsValid two_jobs others two_jobs-IsValid

abbrev one_finished : Queue
one_finished = (1, finished) ∷ (2, waiting) ∷ []

one_finished-IsValid : IsValid one_finished
unfolding get
one_finished-IsValid = (refl, (refl, refl), refl, (refl, (refl, refl), refl, tt))

complete-held :
    (complete 1 "w1" 7 two_jobs ≡ (true, one_finished))
    × (complete 1 "w2" 7 two_jobs ≡ (false, two_jobs))
unfolding complete on_owned get put
complete-held = (refl, refl)

finished_job : get 1 one_finished ≡ some finished
unfolding get
finished_job = refl

run-final_example : get 1 (run one_finished others) ≡ some finished
run-final_example =
    run-final one_finished others 1 finished one_finished-IsValid finished_job (inl refl)
      (tt, (tt, (tt, (tt, tt))))

abbrev order_id : String
order_id = "sst-1-a1"

not_empty : order_id ≢ ""
not_empty e = cc ((eq_iff order_id "").1 e)

enqueue_again_example :
    let later = run (enqueue 2 0 0 entry []).1 others in (enqueue 3 9 9 entry later).1 ≡ later
enqueue_again_example =
    enqueue_again "sst-1-a1" 2 3 0 0 9 9 entry entry [] others refl refl not_empty
      (tt, (tt, (tt, (tt, tt))))

claim_cases_example :
    ((job : OrderJob) × ((claim "w2" 5 1 two_jobs).0 ≡ some job)
      × Handed "w2" 1 (lease_deadline 1 5) two_jobs job (claim "w2" 5 1 two_jobs).1)
    ⊎ ((claim "w2" 5 1 two_jobs ≡ (none, two_jobs))
        × All (λ (e : Uuid × OrderJob). ¬ IsFree 1 e.1) two_jobs)
claim_cases_example = claim_cases "w2" 5 1 two_jobs two_jobs-IsValid

claim-two_jobs : (claim "w2" 5 1 two_jobs).0 ≡ some (claimed_by "w2" 1 5_000_001 waiting)
unfolding claim claim_first claimable lease_lost lease_deadline
claim-two_jobs = refl

claim-busy : (claim "w2" 5 1 ((1, held) ∷ [])).0 ≡ none
unfolding claim claim_first claimable lease_lost lease_deadline
claim-busy = refl

recover-held : (recover_expired 30_000_001 two_jobs).0 ≡ 1
unfolding recover_expired lease_lost
recover-held = refl

recover_expired-done_example :
    let (n, q') = recover_expired 30_000_001 two_jobs in
    Recovered 30_000_001 two_jobs n q'
    × All (λ (e : Uuid × OrderJob). ¬ LeaseLost 30_000_001 e.1) q'
    × (recover_expired 30_000_001 q' ≡ (0, q'))
recover_expired-done_example = recover_expired-done 30_000_001 two_jobs

-- the job allows two attempts and gets ten
claims_of_lost_leases_example :
    (final : OrderJob) × (run ((2, waiting) ∷ []) (claims_and_deaths "w1" 30 5 10)
      ≡ (2, final) ∷ [])
    × (final.attempt ≡ 10)
    × (final.max_attempts ≡ 2)
    × (final.status ≡ JobStatus.claimed)
    × (final.lease_owner ≡ some "w1")
claims_of_lost_leases_example = claims_of_lost_leases 9 2 waiting "w1" 30 5 refl
