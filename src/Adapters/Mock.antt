-- ===== src/Adapters/Mock.antt =====
-- adapters/binance/mock.py: orders, positions, stops and profit of an exchange in memory.
-- An order id is `str` of a number counted from 1, and stands here as that number; an id that is
-- given is `none` where the code tests it as false. The dict `_protections` holds the same objects as
-- `_orders`: here it holds their ids. Amounts that the code keeps as texts are the decimals
-- themselves, since `Decimal(str(d))` is `d`. `upper` is that of Parsers.Text.
-- A method answers with the state it leaves, also where it raises. The clock is an argument.
pub mod State
pub mod Market
pub mod Orders
pub mod Stops
pub mod Steps
pub mod Books
pub mod Consistency
pub mod Keeping
pub mod Idempotence
pub mod Fills
pub mod Protocols
mod Tests
