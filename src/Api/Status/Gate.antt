-- ===== src/Api/Status/Gate.antt =====
-- What a started application says of live trading.
use safe_signal_trader_v.Prelude.{
  String, eq_iff, Bool, true, false, not, Option, some, ◌≡◌, ◌↔◌, refl, inl, inr, if◌then◌else◌,
}
use safe_signal_trader_v.Prelude.Eq.{string_eq}
use safe_signal_trader_v.Prelude.Dict
use safe_signal_trader_v.Outcome.{ok}
use safe_signal_trader_v.Domain.Enums.{AppEnv}
use safe_signal_trader_v.Config.{Settings, is_live_allowed, require_safe_mode}
use safe_signal_trader_v.Config.Gate.{gate}
use safe_signal_trader_v.Api.Status.{health, ready, status_page, dashboard, start, live_gate}

active-ne : ◌≡◌ {A = String} "active" "LIVE_ALLOWED" → ⊥
active-ne e = cc ((eq_iff "active" "LIVE_ALLOWED").1 e)

shows_gate :
    (s : Settings)
    → (◌≡◌ {A = Option String} (some (live_gate s)) (some "LIVE_ALLOWED"))
      ↔ (is_live_allowed s ≡ true)
shows_gate s = shown (is_live_allowed s)
  where
    shown :
        (allowed : Bool)
        → (◌≡◌ {A = Option String}
            (some (if not allowed then "active" else "LIVE_ALLOWED"))
            (some "LIVE_ALLOWED"))
          ↔ (allowed ≡ true)
    shown true = (λ e. refl, λ e. refl)
    shown false = (λ e. absurd (active-ne (cc)), λ e. cc)

allowed_live :
    (s : Settings)
    → require_safe_mode s ≡ ok tt
    → (is_live_allowed s ≡ true) ↔ (s.app_env ≡ AppEnv.live)
allowed_live s started =
    let (starts, allowed) = gate s in
    (
      λ e. (allowed.0 e).0,
      λ e. elim (starts.0 started) [ inl other ↦ absurd (other e) | inr yes' ↦ yes' ],
    )

iff_trans : {P Q R : Type 0} → P ↔ Q → Q ↔ R → P ↔ R
iff_trans f g = (λ p. g.0 (f.0 p), λ r. f.1 (g.1 r))

-- A started application trades live exactly in the environment LIVE, then with the flag set, and all its
-- pages agree on it: /health and /ready, /status and the dashboard.
pub start-pages :
    (now : String) (s : Settings)
    → start s ≡ ok tt
    → let live = s.app_env ≡ AppEnv.live in
      ((is_live_allowed s ≡ true) ↔ live)
      × (live ↔ (live × (s.live_trading_enabled ≡ true)))
      × (((health now s).live_allowed ≡ true) ↔ live)
      × (((ready now s).live_allowed ≡ true) ↔ live)
      × ((Dict.get "live_gate" (status_page s).components ≡ some "LIVE_ALLOWED") ↔ live)
      × (((dashboard now s).live_allowed ≡ true) ↔ live)
      × ((Dict.get "live_gate" (dashboard now s).components ≡ some "LIVE_ALLOWED") ↔ live)
unfolding start health ready status_page dashboard Dict.get
start-pages now s started =
    let live = allowed_live s started in
    let shown = iff_trans (shows_gate s) live in
    (live, (λ e. (gate s).1.0 (live.1 e), λ (e, _). e), live, live, shown, live, shown)
