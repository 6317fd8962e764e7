-- ===== src/Tables/Widths.antt =====
-- The texts that the program makes fit into the columns that are there for them.
use safe_signal_trader_v.Prelude.{
  ℕ, zero, suc, ◌≤◌, String, str_eq, Option, none, some, List, [], ◌∷◌, ◌≡◌, refl, length, arith,
  if◌then◌else◌,
}
use safe_signal_trader_v.Prelude.Eq.{string_eq}
use safe_signal_trader_v.Domain.Enums.{JobStatus, ConflictPolicy, conflict_policy_value}
use safe_signal_trader_v.Domain.Models.{Uuid}
use safe_signal_trader_v.Parsers.Text.{chars}
use safe_signal_trader_v.Core.Entry.OrderId.{client_order_id, take}
use safe_signal_trader_v.Api.Demo.Answers.{job_status_value}
use safe_signal_trader_v.Tables.{Column, ColumnType, varchar, order_job_table, signal_source_table}

abbrev width_of : ColumnType → Option ℕ
width_of (varchar n) = some n
width_of _ = none

-- The number of characters that a column of a table takes.
unfoldable width : String → List Column → Option ℕ
width name [] = none
width name (c ∷ cs) =
    let rest = width name cs in if str_eq c.name name then width_of c.type else rest

length-take : (n : ℕ) (xs : List ℕ) → length (take n xs) ≤ n
unfolding take
length-take zero xs = omega arith
length-take (suc n) [] = omega arith
length-take (suc n) (x ∷ xs) = omega (arith, length-take n xs)

id-length : (trade_id : Uuid) (attempt : ℕ) → length (client_order_id trade_id attempt) ≤ 36
unfolding client_order_id
id-length trade_id attempt = search length-take

status-length : (s : JobStatus) → length (chars (job_status_value s)) ≤ 32
unfolding job_status_value chars
status-length JobStatus.pending = omega arith
status-length JobStatus.claimed = omega arith
status-length JobStatus.in_progress = omega arith
status-length JobStatus.completed = omega arith
status-length JobStatus.failed = omega arith
status-length JobStatus.manual_review = omega arith
status-length JobStatus.cancelled = omega arith

policy-length : (p : ConflictPolicy) → length (chars (conflict_policy_value p)) ≤ 64
unfolding conflict_policy_value chars
policy-length ConflictPolicy.reject_second = omega arith
policy-length ConflictPolicy.allow_same_direction_scale_in = omega arith
policy-length ConflictPolicy.dedicated_account = omega arith
policy-length ConflictPolicy.source_priority = omega arith
policy-length ConflictPolicy.manual_review = omega arith

-- A client order id, a status of a job and a conflict policy fit into their columns.
texts-fit :
    (trade_id : Uuid) (attempt : ℕ) (status : JobStatus) (policy : ConflictPolicy)
    → (n : ℕ) × (width "client_order_id" order_job_table.columns ≡ some n)
      × (length (client_order_id trade_id attempt) ≤ n)
      × (m : ℕ) × (width "status" order_job_table.columns ≡ some m)
      × (length (chars (job_status_value status)) ≤ m)
      × (k : ℕ) × (width "conflict_policy" signal_source_table.columns ≡ some k)
      × (length (chars (conflict_policy_value policy)) ≤ k)
unfolding width order_job_table signal_source_table
texts-fit trade_id attempt status policy = (
  64,
  refl,
  omega (arith, id-length trade_id attempt),
  32,
  refl,
  status-length status,
  64,
  refl,
  policy-length policy,
)
