-- ===== src/Logging.antt =====
-- infrastructure/logging.py: the correlation id of a context. Its value is a state, empty at first; a
-- new UUID, as text, is an argument. What structlog does with an event is the library's.
mod Tests
use safe_signal_trader_v.Prelude.{String, str_eq, Option, none, some, if◌then◌else◌}
use safe_signal_trader_v.Prelude.Eq.{string_eq}
use safe_signal_trader_v.Prelude.Dict
use safe_signal_trader_v.Prelude.Dict.{Dict}

-- The answer, and the variable after the call.
unfoldable pub get_correlation_id : String → String → String × String
get_correlation_id uuid cid = if str_eq cid "" then (uuid, uuid) else (cid, cid)

abbrev pub or_new : Option String → String → String
or_new none uuid = uuid
or_new (some cid) uuid = if str_eq cid "" then uuid else cid

unfoldable pub bind_correlation_id : Option String → String → String → String × String
bind_correlation_id cid uuid var = (or_new cid uuid, or_new cid uuid)

-- `_add_correlation`
unfoldable pub add_correlation : String → Dict String String → String → Dict String String × String
unfolding get_correlation_id
add_correlation uuid event_dict var =
    let (cid, var') = get_correlation_id uuid var in
    (Dict.put "correlation_id" cid event_dict, var')
