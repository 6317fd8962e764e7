-- ===== src/Api/Demo/Backing.antt =====
-- api/demo.py: what an analysis rests on, part by part.
use safe_signal_trader_v.Core.Protection.{initial_stop}
use safe_signal_trader_v.Core.Conflict.{resolve}
use safe_signal_trader_v.Prelude.{
  true, Option, none, some, ◌≡◌, refl, ◌∙◌, ap, inl, inr, arith, Bool-cases, [], Option-cases,
}
use safe_signal_trader_v.Prelude.Eq.{string_eq}
use safe_signal_trader_v.Decimal.{Decimal}
use safe_signal_trader_v.Outcome.{Result, ok, err}
use safe_signal_trader_v.Domain.Models.{NormalizedSignal, EffectiveConfigSnapshot}
use safe_signal_trader_v.Core.Entry
use safe_signal_trader_v.Core.Risk
use safe_signal_trader_v.Core.Risk.{RiskDecision, sized, size_position}
use safe_signal_trader_v.Ingestion.{RawInboundMessage, PipelineOutput}
use safe_signal_trader_v.Parsers.Structured.Shape.{WellFormed}
use safe_signal_trader_v.Profiles.Model.{TradingProfile}
use safe_signal_trader_v.Profiles.Registry
use safe_signal_trader_v.Profiles.Snapshot.{build_snapshot}
use safe_signal_trader_v.Sources
use safe_signal_trader_v.Sources.{SourceConfig}
use safe_signal_trader_v.Api.State.{
  Library, Reads, DemoState, RiskRequest, Analysis, answered, analysis, length_within,
}
use safe_signal_trader_v.Api.Demo.{
  ingest, analyze, analyze_message, analyze_parsed, analyze_signal, analyze_decided,
  analysis_message, counted, context_of, mark_of,
}
use safe_signal_trader_v.Api.Demo.Intake.{with_hash_same, ingest-WellFormed}

analysis_injective : (a b : Analysis) → answered (analysis a) ≡ answered (analysis b) → a ≡ b
analysis_injective a b e = cc

module _ (lib : Library) (r : Reads) where
  -- What an analysis rests on.
  pub record Backed (body : RiskRequest) (demo : DemoState) (a : Analysis) : Type 0 where
    pub source : SourceConfig
    pub source_known : Sources.get body.source_id demo.sources ≡ some source
    pub source_enabled : source.enabled ≡ true
    pub profile : TradingProfile
    pub profile_known : Registry.get body.profile_id none demo.profiles ≡ some profile
    pub well_formed :
        WellFormed body.text body.source_id
          (some (analysis_message lib r body (counted demo).msg_counter).message_id)
          a.signal
    pub snapshot :
        a.snapshot
        ≡ build_snapshot lib.str_decimal lib.config_digest source profile "1.0.0" r.snapshot_id
            r.snapshot_at
    pub decided :
        Risk.evaluate a.signal a.snapshot (context_of body profile a.signal (mark_of body a.signal))
        ≡ ok a.risk
    pub planned :
        a.entry ≡ Entry.plan r.trade_id a.signal a.snapshot a.risk 0 (some (mark_of body a.signal))
    pub protected : a.protection ≡ initial_stop a.signal a.snapshot (some (mark_of body a.signal))
    pub unopposed : a.conflict ≡ resolve a.signal a.snapshot.conflict_policy [] none

  decided_Backed :
      (body : RiskRequest) (demo : DemoState) (signal : NormalizedSignal) (source : SourceConfig)
      (profile : TradingProfile) (a : Analysis)
      → Sources.get body.source_id demo.sources ≡ some source
      → source.enabled ≡ true
      → Registry.get body.profile_id none demo.profiles ≡ some profile
      → WellFormed body.text body.source_id
          (some (analysis_message lib r body (counted demo).msg_counter).message_id)
          signal
      → analyze_signal lib r body signal (some source) (some profile) ≡ answered (analysis a)
      → Backed body demo a
  unfolding analyze_signal analyze_decided
  decided_Backed body demo signal source profile a known enabled profiled formed e =
      decided (Risk.evaluate signal snap (context_of body profile signal mark)) refl e
    where
      snap : EffectiveConfigSnapshot
      snap =
          build_snapshot lib.str_decimal lib.config_digest source profile "1.0.0" r.snapshot_id
            r.snapshot_at

      mark : Decimal
      mark = mark_of body signal

      decided :
          (risk : Result RiskDecision)
          → Risk.evaluate signal snap (context_of body profile signal mark) ≡ risk
          → analyze_decided r signal snap mark risk ≡ answered (analysis a)
          → Backed body demo a
      decided (err failure) e h = absurd (ground arith)
      decided (ok risk) e h =
          let same = analysis_injective _ a h in
          rw (← same) record {
            source = source;
            source_known = known;
            source_enabled = enabled;
            profile = profile;
            profile_known = profiled;
            well_formed = formed;
            snapshot = refl;
            decided = e;
            planned = refl;
            protected = refl;
            unopposed = refl;
          }

  -- The signal of an analysis comes through the pipeline, its source and its profile from the
  -- registries, and the rest from one call of each part.
  pub analyze-Backed :
      (body : RiskRequest) (demo : DemoState) (a : Analysis)
      → (analyze lib r body demo).0 ≡ answered (analysis a)
      → Backed body demo a
  unfolding analyze analyze_message analyze_parsed analyze_signal
  analyze-Backed body demo a e = elim (Bool-cases (length_within 1 8000 body.text)) [
    | inr refused ↦ absurd (ground arith)
    | inl text_fits ↦ elim (Bool-cases (length_within 1 64 body.source_id)) [
      | inr refused ↦ absurd (ground arith)
      | inl source_fits ↦ ingested (ingest lib r msg state) refl (ground arith)
    ]
  ]
    where
      state : DemoState
      state = counted demo

      msg : RawInboundMessage
      msg = analysis_message lib r body state.msg_counter

      found :
          (signal : NormalizedSignal) (source : SourceConfig)
          → WellFormed body.text body.source_id (some msg.message_id) signal
          → Sources.get body.source_id demo.sources ≡ some source
          → source.enabled ≡ true
          → (profile : Option TradingProfile)
          → Registry.get body.profile_id none demo.profiles ≡ profile
          → analyze_signal lib r body signal (some source) profile ≡ answered (analysis a)
          → Backed body demo a
      found signal source formed known enabled none profiled h = absurd (ground arith)
      found signal source formed known enabled (some profile) profiled h =
          decided_Backed body demo signal source profile a known enabled profiled formed h

      ingested :
          (out : PipelineOutput)
          → ingest lib r msg state ≡ out
          → analyze_parsed lib r body state out.result.outcome out.result.detail out.signal
            ≡ answered (analysis a)
          → Backed body demo a
      ingested out made h = elim (Option-cases out.signal) [
        | inl nothing ↦ absurd (ground arith)
        | inr (signal, given) ↦
            let (source, known, enabled, formed) =
              ingest-WellFormed lib r msg state signal
                (ap (λ (o : PipelineOutput). o.signal) made ∙ given) in
            let (s, m, t) = with_hash_same lib.text_hash msg in
            let here : Sources.get body.source_id demo.sources ≡ some source = rw s at known in
            let decided = rw given at h in
            found signal source (rw (s, m, t) at formed) here enabled
              (Registry.get body.profile_id none demo.profiles) refl (rw here at decided)
      ]
