-- ===== src/Api/Demo/Tests.antt =====
-- The demo with its example source and its default profiles.
use safe_signal_trader_v.Prelude.{
  ◌+◌, ◌≡◌, ◌≢◌, ◌↔◌, ◌⊎◌, refl, true, false, none, some, List, [], ◌∷◌,
}
use safe_signal_trader_v.Prelude.Int.{pos}
use safe_signal_trader_v.Decimal.{
  of_nat, of_digits, mul, quantize_down, smaller, cross, add, div, floor_div, rounded, sub,
  round_mag, digits, digits_from, half_even, fitting, long_quotient,
}
use safe_signal_trader_v.Domain.Enums.{Side, EntryType, ConflictPolicy, SlMode, LastTpMode}
use safe_signal_trader_v.Domain.Models.{Object, NormalizedSignal, EffectiveConfigSnapshot}
use safe_signal_trader_v.Core.Conflict
use safe_signal_trader_v.Core.Entry
use safe_signal_trader_v.Core.Protection
use safe_signal_trader_v.Core.Risk.{
  RiskDecision, RiskReason, evaluate, evaluate_size, leverage_of as leverage_cap, max_loss_of,
  within_exposure, capped_notional, size_position, apply_rules, on_step, check_notional, conclude,
}
use safe_signal_trader_v.Domain.Validation.{normalized_signal}
use safe_signal_trader_v.Ingestion
use safe_signal_trader_v.Ingestion.{
  process, process_from, process_known, is_duplicate, run_parser, resolve_parser, after_parse,
  after_validate,
}
use safe_signal_trader_v.Parsers.Text.{
  chars, string_of, upper, strip, ends_with, same, is_space, is_newline, is_alnum, is_amount,
}
use safe_signal_trader_v.Parsers.Regex.{
  run as run_pattern, run_many, taken, at_line_end, match_at, search_text, find_all,
}
use safe_signal_trader_v.Parsers.Patterns.{is_index, is_percent}
use safe_signal_trader_v.Parsers.Structured.{
  generic_structured_v1, parse, parse_match, can_parse, to_decimal, normalize_symbol, side_of,
  level_of, levels_of, sort_levels, leverage_of, int_of, digits_value, validate,
}
use safe_signal_trader_v.Profiles.Registry
use safe_signal_trader_v.Profiles.Registry.{build_default_profiles}
use safe_signal_trader_v.Profiles.Snapshot.{build_snapshot}
use safe_signal_trader_v.Sources
use safe_signal_trader_v.Sources.{build_example_registry}
use safe_signal_trader_v.Versioned
use safe_signal_trader_v.Prelude.Dict
use safe_signal_trader_v.Parsers.Registry as ParserList
use safe_signal_trader_v.Prelude.Sorted.{sorted_set, precedes}
use safe_signal_trader_v.Api.Demo.Pages.{overview}
use safe_signal_trader_v.Api.Demo.Answers.{analysis_view, shown_amount}
use safe_signal_trader_v.Api.Demo.Agreement.{analysis_view-agrees}
use safe_signal_trader_v.Api.State.{
  Library, Reads, DemoState, RiskRequest, Analysis, analysis, answered, started,
}
use safe_signal_trader_v.Api.Demo.{
  analyze, analyze_message, analyze_parsed, analyze_signal, analyze_decided, ingest,
  build_default_registry,
}
use safe_signal_trader_v.Api.Demo.Safety.{Approved, analyze-Approved}
use safe_signal_trader_v.Api.Demo.Playground.{queue_status}
use safe_signal_trader_v.Api.Demo.Requests.{
  DemoRequest, view, analyze_request, enqueue_post, claim_post, fail_post, serve_all,
  queue_status-accounts,
}

-- an id is read as a number of one digit
abbrev library : Library
library = record {
  str_decimal = λ d. "1";
  str_int = λ n. "1";
  str_uuid = λ id. "00000000-0000-0000-0000-000000000005";
  config_digest = λ payload. "digest";
  text_hash = λ text. "hash";
  uuid_of = λ text. some 5;
  short_hex = λ id. "0123456789";
}

abbrev reads : Reads
reads = record {
  received_at = 1;
  signal_id = 2;
  signal_at = 3;
  snapshot_id = 4;
  snapshot_at = 5;
  trade_id = 6;
}

abbrev fresh : DemoState
fresh = started 0 0 0

abbrev buy_sol : RiskRequest
buy_sol = record {
  text = "SIGNAL BUY SOLUSDT\nLEV 3";
  source_id = "src_demo_alpha";
  profile_id = "profile_default";
  mark_price = some (of_nat 150);
  open_positions = pos 0;
}

abbrev requests : List DemoRequest
requests =
    analyze_request reads buy_sol
    ∷ enqueue_post (record { trade_id = 1; random_id = 2; job_id = 5; created = 3; updated = 4 })
        (record { job_type = "entry"; client_order_id = none })
    ∷ view
    ∷ claim_post "demo-worker" 10
    ∷ fail_post "5" "demo-worker" "demo fail" 20
    ∷ []

queue_status-accounts_example :
    let s = queue_status (serve_all library fresh requests) in
    s.pending + s.claimed + s.completed + s.manual_review ≡ s.size
unfolding started
queue_status-accounts_example = queue_status-accounts library fresh requests tt

abbrev sol_signal : NormalizedSignal
sol_signal = record {
  signal_id = 2;
  source_id = "src_demo_alpha";
  parser_id = "generic_structured";
  parser_version = "1.0.0";
  symbol = "SOLUSDT";
  side = Side.long;
  entry_type = EntryType.market;
  entry_price = none;
  stop_loss = none;
  take_profits = [];
  leverage = some 3;
  raw_message_id = some "demo-an-1";
  raw_hash = some "hash";
  received_at = 3;
  extra = Object.empty;
}

abbrev sol_snapshot : EffectiveConfigSnapshot
sol_snapshot = record {
  schema_version = "1.0.0";
  snapshot_id = 4;
  source_id = "src_demo_alpha";
  account_id = "acc_demo_1";
  profile_id = "profile_default";
  profile_version = "1.0.0";
  conflict_policy = ConflictPolicy.reject_second;
  max_leverage = 10;
  max_notional_usdt = some (of_nat 100);
  max_loss_usdt = some (of_nat 10);
  sl_mode = SlMode.break_even;
  last_tp_mode = LastTpMode.trailing;
  allow_partials = false;
  created_at = 5;
  config_hash = "digest";
}

-- thirty dollars, a fifth of a coin
abbrev fifth : RiskDecision
fifth = record {
  allowed = true;
  reason = RiskReason.ok_reason;
  leverage = 3;
  notional_usdt = of_digits 3000 2;
  quantity = some (of_digits 200 3);
  max_loss_usdt = some (of_nat 10);
}

abbrev sol_analysis : Analysis
sol_analysis = record {
  signal = sol_signal;
  snapshot = sol_snapshot;
  risk = fifth;
  entry = Entry.plan 6 sol_signal sol_snapshot fifth 0 (some (of_nat 150));
  protection = Protection.initial_stop sol_signal sol_snapshot (some (of_nat 150));
  conflict = Conflict.resolve sol_signal ConflictPolicy.reject_second [] none;
}

analyze-sol : (analyze library reads buy_sol fresh).0 ≡ answered (analysis sol_analysis)
unfolding analyze analyze_message analyze_parsed analyze_signal analyze_decided ingest
    build_default_registry started process process_from process_known is_duplicate run_parser
    resolve_parser after_parse after_validate Ingestion.get Ingestion.register Versioned.find
    Versioned.register Versioned.key Sources.get build_example_registry Registry.get
    build_default_profiles build_snapshot Dict.get Dict.put generic_structured_v1 parse can_parse
    parse_match search_text find_all match_at run_pattern run_many taken at_line_end chars string_of
    upper strip ends_with same is_space is_newline is_alnum is_amount is_index is_percent to_decimal
    normalize_symbol side_of level_of levels_of sort_levels leverage_of int_of digits_value validate
    normalized_signal evaluate evaluate_size leverage_cap max_loss_of within_exposure
    capped_notional smaller cross add mul div quantize_down floor_div size_position apply_rules
    on_step check_notional conclude rounded sub round_mag digits digits_from half_even fitting
    long_quotient
analyze-sol = refl

-- the same request again is no duplicate
analyze-again :
    (analyze library reads buy_sol (analyze library reads buy_sol fresh).1).0
    ≡ answered (analysis sol_analysis)
unfolding analyze analyze_message analyze_parsed analyze_signal analyze_decided ingest
    build_default_registry started process process_from process_known is_duplicate run_parser
    resolve_parser after_parse after_validate Ingestion.get Ingestion.register Versioned.find
    Versioned.register Versioned.key Sources.get build_example_registry Registry.get
    build_default_profiles build_snapshot Dict.get Dict.put generic_structured_v1 parse can_parse
    parse_match search_text find_all match_at run_pattern run_many taken at_line_end chars string_of
    upper strip ends_with same is_space is_newline is_alnum is_amount is_index is_percent to_decimal
    normalize_symbol side_of level_of levels_of sort_levels leverage_of int_of digits_value validate
    normalized_signal evaluate evaluate_size leverage_cap max_loss_of within_exposure
    capped_notional smaller cross add mul div quantize_down floor_div size_position apply_rules
    on_step check_notional conclude rounded sub round_mag digits digits_from half_even fitting
    long_quotient
analyze-again = refl

sol-unblocked : sol_analysis.entry.blocked ≡ false
unfolding Entry.plan Entry.plan_sized Entry.allowed_quantity cross
sol-unblocked = refl

analyze-Approved_example : Approved library reads buy_sol fresh sol_analysis
analyze-Approved_example =
    analyze-Approved library reads buy_sol fresh sol_analysis analyze-sol sol-unblocked

analysis_view-agrees_example :
    let v = analysis_view library sol_analysis in
    (v.conflict.action ≡ "accept")
    × ((v.protection.is_protected ≡ true) ↔ (v.signal.stop_loss ≢ none))
    × ((v.entry.blocked ≡ true)
        ⊎ ((v.risk.allowed ≡ true)
            × (v.risk.quantity ≡ some v.entry.quantity)
            × (v.entry.leverage ≡ v.risk.leverage)))
analysis_view-agrees_example =
    analysis_view-agrees library reads buy_sol fresh sol_analysis analyze-sol

-- a limit of no loss is not shown
unlimited_view :
    (analysis_view library (record sol_analysis {
      snapshot = record sol_snapshot { max_loss_usdt = some (of_nat 0) };
    })).snapshot.max_loss_usdt
    ≡ none
unfolding analysis_view shown_amount
unlimited_view = refl

overview-fresh :
    ((overview "12:00" (build_default_registry library reads) fresh).parsers
      ≡ "generic_structured" ∷ [])
    × ((overview "12:00" (build_default_registry library reads) fresh).profiles
        ≡ "profile_conservative" ∷ "profile_default" ∷ [])
unfolding overview started build_default_registry Ingestion.register generic_structured_v1
    ParserList.list_ids Registry.list_ids build_default_profiles Registry.register
    Versioned.register Versioned.key Dict.put sorted_set precedes
overview-fresh = (refl, refl)
