-- ===== src/Lib.antt =====
-- The core of safe-signal-trader: a bot that reads trading signals from messages, decides whether they
-- may be traded and how large, plans the entry order and its protection, and hands the work to a queue
-- of jobs; with the mock exchange that takes the orders, and the demo that puts the parts together.
-- All paths are from the repository's root; the code is in src/signal_bot.
--
-- How the parts interact. A message goes through the pipeline of ingestion/ (source registry, dedup
-- store, the parser that the source is bound to) and becomes a signal; parsers/ has one parser, of
-- lines. core/conflict decides against the open trades, core/risk computes leverage and size under the
-- snapshot that profiles/ froze, core/entry plans the order with its client order id, core/protection
-- sets and moves the stop, core/position is the life of the trade, and infrastructure/queue carries the
-- order jobs. adapters/binance/mock.py is an exchange in memory. api/demo.py runs a text through all of
-- it, up to the plan, and lets its requests play with a queue.
--
-- Files and code:
--   Prelude, Prelude/*   shared names, Boolean tests, integers, a Python dict in insertion order, and
--                        `sorted` of a set of texts
--   Decimal, Decimal/*   Python's `decimal.Decimal`: 28 significant digits, ROUND_HALF_EVEN; a number
--                        is a coefficient and a scale, without limits on the exponent, so that
--                        `decimal.Overflow` does not occur; comparison is exact
--   Outcome              exceptions as values
--   Domain/Enums, Domain/Models, Domain/Validation   domain/enums.py, domain/models.py
--   Core/Position        core/position/state_machine.py (`transitions`, `transition`)
--   Core/Conflict        core/conflict/resolver.py (`resolve`)
--   Core/Protection      core/protection/planner.py (`initial_stop`, `after_tp`, `never_worsen`)
--   Core/Risk            core/risk/engine.py (`evaluate`, one function for each of its steps)
--   Core/Entry           core/entry/planner.py (`plan`; the client order id in Core/Entry/OrderId)
--   Queue                infrastructure/queue/memory.py and jobs.py; Queue/Steps makes its calls the
--                        steps of one machine, so that a list of calls by any workers is a run
--   Versioned, Profiles  profiles/registry.py, profiles/models.py, profiles/snapshot.py
--   Sources              sources/models.py, sources/registry.py
--   Ingestion            ingestion/models.py, dedup.py, pipeline.py, with parsers/interfaces.py and
--                        `register` and `get` of parsers/registry.py
--   Parsers/Text, Parsers/Regex, Parsers/Patterns   texts as lists of characters, a matcher with the
--                        choices of Python's `re` (greedy, leftmost, with backtracking), and the
--                        five patterns of parsers/generic_structured.py
--   Parsers/Structured   parsers/generic_structured.py (`can_parse`, `parse`, `validate`)
--   Parsers/Registry     parsers/registry.py (`list_ids`, `resolve_for_text`)
--   Adapters             adapters/binance/capabilities.py and mock.py; Adapters/Mock/State has the
--                        dicts of the exchange, Market, Orders and Stops its methods, and
--                        Adapters/Mock/Steps the calls that write, as steps
--   Api/State, Api/Demo  api/demo.py: the module's globals are a state, an endpoint answers with the
--                        state that it leaves; Api/Demo/Requests makes the requests steps
--   Api/Status           api/health.py, api/dashboard.py, and the start in main.py and __main__.py
--   Adapters/Interfaces  adapters/interfaces.py, a record for each protocol; Adapters/Mock/Protocols
--                        fills them
--   Logging              infrastructure/logging.py, the correlation id
--   Tables               infrastructure/db/models.py, the declarations of the tables as data
--   Config               config/settings.py, the gate in front of live trading
--   Samples, */Tests     sample data, runs on it, and the theorems at concrete inputs
--
-- State is passed explicitly: a queue, a registry, a dedup store or an exchange is an argument and a
-- result. The clock and new UUIDs are arguments, one for each time that the code reads them. Text that
-- only ends up in a reason or a log is a constructor with the values that the f-string shows. SHA-256,
-- `str` of a decimal, `UUID` of a text, the identity of an object and, in the pipeline, the parsers are
-- arguments. An order of the exchange is kept in one dict, by number; the other dicts hold its number
-- where the code holds the same object. Numbers that the exchange keeps as text are decimals. Every
-- function is total: the only fuel is in the digits of a number, where it is the number itself, and
-- each step divides that by ten; the matcher recurs on the pattern and the rest of the text.
--
-- Not modelled: the sessions and migrations of the database, the set-up of logging, reading the
-- environment, and HTTP, templates and the command line (glue around libraries). Letters and digits
-- are those of ASCII, in patterns and in `upper`. Lease times in seconds and `max_attempts` are natural
-- numbers, and the bounds on fields of snapshots and profiles are left out.
pub mod Prelude
pub mod Decimal
pub mod Outcome
pub mod Domain
pub mod Core
pub mod Queue
pub mod Versioned
pub mod Sources
pub mod Profiles
pub mod Ingestion
pub mod Config
pub mod Parsers
pub mod Adapters
pub mod Api
pub mod Logging
pub mod Tables
pub mod Samples
