-- ===== src/Sources/Registry.antt =====
-- What switching sources on and off does.
use safe_signal_trader_v.Prelude.{
  String, Bool, true, false, none, some, ◌≡◌, refl, ap, arith, if◌then◌else◌, str_eq,
}
use safe_signal_trader_v.Prelude.Eq.{string_eq}
use safe_signal_trader_v.Prelude.Dict
use safe_signal_trader_v.Prelude.Dict.{get-put, get-put_self}
use safe_signal_trader_v.Sources.{
  SourceConfig, SourceRegistry, set_enabled, if_enabled, get, get_enabled, disable, enable,
}

set_enabled-known :
    (flag : Bool) (k : String) (reg : SourceRegistry) (src : SourceConfig)
    → Dict.get k reg ≡ some src
    → set_enabled flag k reg ≡ (true, Dict.put k (record src { enabled = flag }) reg)
unfolding set_enabled
set_enabled-known flag k reg src e = ground arith

set_enabled-unknown :
    (flag : Bool) (k : String) (reg : SourceRegistry)
    → Dict.get k reg ≡ none
    → set_enabled flag k reg ≡ (false, reg)
unfolding set_enabled
set_enabled-unknown flag k reg e = ground arith

-- Disabling a known source answers True, and changes that source alone, and in it the flag alone;
-- the source is then not among the enabled ones. Enabling it after that gives it back enabled, and
-- otherwise as it was.
pub disable-enable :
    (k j : String) (reg : SourceRegistry) (src : SourceConfig)
    → get k reg ≡ some src
    → let (done, off) = disable k reg in
      (done ≡ true)
      × (get j off ≡ (if str_eq k j then some (record src { enabled = false }) else get j reg))
      × (get_enabled k off ≡ none)
      × (get j (enable k off).1
          ≡ (if str_eq k j then some (record src { enabled = true }) else get j reg))
unfolding get get_enabled disable enable
disable-enable k j reg src e =
    let off = Dict.put k (record src { enabled = false }) reg in
    let there : Dict.get k off ≡ some (record src { enabled = false }) = get-put_self k _ reg in
    rw
      (
        set_enabled-known false k reg src e,
        set_enabled-known true k off (record src { enabled = false }) there,
      )
      ((
        refl,
        get-put k j (record src { enabled = false }) reg,
        ap if_enabled there,
        ground (
          arith,
          get-put k j (record src { enabled = false }) reg,
          get-put k j (record src { enabled = true }) off,
        ),
      ))

-- Switching an unknown source changes nothing and answers False.
pub switch_unknown :
    (k : String) (reg : SourceRegistry)
    → get k reg ≡ none
    → (disable k reg ≡ (false, reg)) × (enable k reg ≡ (false, reg))
unfolding get disable enable
switch_unknown k reg e = (set_enabled-unknown false k reg e, set_enabled-unknown true k reg e)
