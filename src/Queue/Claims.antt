-- ===== src/Queue/Claims.antt =====
-- What `claim` hands out, and what `recover_expired` gives back.
use safe_signal_trader_v.Prelude.{
  ℕ, ◌+◌, ◌<◌, String, true, false, none, some, [], ◌∷◌, ◌≡◌, refl, inl, inr, arith, ◌==◌,
  Bool-cases, Option-cases, ◌⊎◌, All, if◌then◌else◌,
}
use safe_signal_trader_v.Prelude.Eq.{nat_eq}
use safe_signal_trader_v.Prelude.Dict.{get}
use safe_signal_trader_v.Domain.Enums.{JobStatus}
use safe_signal_trader_v.Domain.Models.{Uuid, Timestamp, OrderJob}
use safe_signal_trader_v.Queue.{
  Queue, claim, claim_first, claimable, claimed_by, lease_deadline, recover_expired, lease_lost,
}
use safe_signal_trader_v.Queue.Validity.{IsValid}

-- The lease of a job has run out: it is CLAIMED until a time that has passed.
abbrev pub LeaseLost : Timestamp → OrderJob → Type 0
LeaseLost now job =
    (job.status ≡ JobStatus.claimed)
    × (until : Timestamp) × (job.lease_until ≡ some until)
    × (until < now)

-- A job that a worker may have.
abbrev pub IsFree : Timestamp → OrderJob → Type 0
IsFree now job = (job.status ≡ JobStatus.pending) ⊎ LeaseLost now job

lease_lost-LeaseLost :
    (now : Timestamp) (job : OrderJob) → lease_lost now job ≡ true → LeaseLost now job
unfolding lease_lost
lease_lost-LeaseLost now job e = elim (Option-cases job.lease_until) [
  | inl never ↦ absurd (ground arith)
  | inr (until, known) ↦ (ground arith, until, known, ground arith)
]

lease_lost-not :
    (now : Timestamp) (job : OrderJob) → lease_lost now job ≡ false → ¬ LeaseLost now job
unfolding lease_lost
lease_lost-not now job e (claimed, until, known, past) = ground arith

claimable-IsFree : (now : Timestamp) (job : OrderJob) → claimable now job ≡ true → IsFree now job
unfolding claimable
claimable-IsFree now job e = elim (Bool-cases (lease_lost now job)) [
  | inl lost ↦ inr (lease_lost-LeaseLost now job lost)
  | inr kept ↦ inl (ground arith)
]

claimable-not : (now : Timestamp) (job : OrderJob) → claimable now job ≡ false → ¬ IsFree now job
unfolding claimable
claimable-not now job e (inl pending) = ground arith
claimable-not now job e (inr lost) = lease_lost-not now job (ground arith) lost

-- What a claim that found `job` has done.
abbrev pub Handed : String → Timestamp → Timestamp → Queue → OrderJob → Queue → Type 0
Handed owner now until q job q' =
    (old : OrderJob) × (get job.job_id q ≡ some old)
    × IsFree now old
    × (job ≡ record old {
      status = JobStatus.claimed;
      lease_owner = some owner;
      lease_until = some until;
      attempt = old.attempt + 1;
      updated_at = now;
    })
    × ((j : Uuid) → get j q' ≡ (if job.job_id == j then some job else get j q))

claim_first-some :
    (owner : String) (now until : Timestamp) (q : Queue) (job : OrderJob)
    → IsValid q
    → (claim_first owner now until q).0 ≡ some job
    → Handed owner now until q job (claim_first owner now until q).1
unfolding claim_first get
claim_first-some owner now until [] job v e = absurd (ground arith)
claim_first-some owner now until ((k, old) ∷ q) job v e = elim (Bool-cases (claimable now old)) [
  | inl free ↦
      let new : job ≡ claimed_by owner now until old = ground arith in
      (old, ground arith, claimable-IsFree now old free, new, λ j. ground arith)
  | inr busy ↦
      let found : (claim_first owner now until q).0 ≡ some job = ground arith in
      let (before, here, free, new, others) = claim_first-some owner now until q job v.3 found in
      let ne : (k == job.job_id) ≡ false = ground (arith, v.2, here) in
      (before, rw ne here, free, new, λ j. ground (arith, others j))
]

claim_first-none :
    (owner : String) (now until : Timestamp) (q : Queue)
    → (claim_first owner now until q).0 ≡ none
    → ((claim_first owner now until q).1 ≡ q) × All (λ (e : Uuid × OrderJob). ¬ IsFree now e.1) q
unfolding claim_first
claim_first-none owner now until [] e = (refl, tt)
claim_first-none owner now until ((k, old) ∷ q) e =
    let busy : claimable now old ≡ false = ground arith in
    let later : (claim_first owner now until q).0 ≡ none = ground arith in
    let (same, all) = claim_first-none owner now until q later in
    (rw (busy, same) refl, (claimable-not now old busy, all))

pair-eq : {A B : Type 0} {a : A} {b : B} (p : A × B) → p.0 ≡ a → p.1 ≡ b → p ≡ (a, b)
pair-eq (a, b) e f = cc

-- `claim` on a valid queue either hands out a job that is PENDING or whose lease has run out, leased
-- to the caller until the deadline with one attempt more, writes that job back and changes no other;
-- or it answers `None`, and then no job is free, and the queue is left alone.
pub claim_cases :
    (owner : String) (seconds : ℕ) (now : Timestamp) (q : Queue)
    → IsValid q
    → ((job : OrderJob) × ((claim owner seconds now q).0 ≡ some job)
        × Handed owner now (lease_deadline now seconds) q job (claim owner seconds now q).1)
      ⊎ ((claim owner seconds now q ≡ (none, q))
          × All (λ (e : Uuid × OrderJob). ¬ IsFree now e.1) q)
unfolding claim
claim_cases owner seconds now q v =
    let until = lease_deadline now seconds in
    elim (Option-cases (claim_first owner now until q).0) [
      | inl nothing ↦
          let (kept, busy) = claim_first-none owner now until q nothing in
          inr (pair-eq _ nothing kept, busy)
      | inr (job, found) ↦ inl (job, found, claim_first-some owner now until q job v found)
    ]

-- What recovering makes of a queue, job by job: a job whose lease has run out becomes PENDING, with no
-- owner and no deadline, and is counted; any other stays as it is.
unfoldable pub Recovered : Timestamp → Queue → ℕ → Queue → Type 0
Recovered now [] n q' = (n ≡ 0) × (q' ≡ [])
Recovered now ((k, job) ∷ q) n q' =
    (m : ℕ) × (rest : Queue) × Recovered now q m rest
    × ((LeaseLost now job
          × (n ≡ m + 1)
          × (q'
              ≡ (
                k,
                record job {
                  status = JobStatus.pending;
                  lease_owner = none;
                  lease_until = none;
                  updated_at = now;
                },
              )
                ∷ rest))
        ⊎ ((¬ LeaseLost now job) × (n ≡ m) × (q' ≡ (k, job) ∷ rest)))

-- `recover_expired` gives back every job whose lease has run out, as PENDING, with no owner and no
-- deadline, counts these jobs, and leaves every other job as it is. Nothing is left to recover at that
-- time: no lease of the result has run out, and a second call changes nothing.
pub recover_expired-done :
    (now : Timestamp) (q : Queue)
    → let (n, q') = recover_expired now q in
      Recovered now q n q'
      × All (λ (e : Uuid × OrderJob). ¬ LeaseLost now e.1) q'
      × (recover_expired now q' ≡ (0, q'))
unfolding recover_expired Recovered
recover_expired-done now [] = ((refl, refl), tt, refl)
recover_expired-done now ((k, job) ∷ q) =
    let (n, rest) = recover_expired now q in
    let (whole, clear, again) = recover_expired-done now q in
    elim (Bool-cases (lease_lost now job)) [
      | inl lost ↦ rw lost (
        (n, rest, whole, inl (lease_lost-LeaseLost now job lost, refl, refl)),
        ((λ (status, _, _, _). cc status), clear),
        ground (arith, again),
      )
      | inr kept ↦ rw kept (
        (n, rest, whole, inr (lease_lost-not now job kept, refl, refl)),
        (lease_lost-not now job kept, clear),
        ground (arith, again, kept),
      )
    ]
