-- ===== src/Decimal.antt =====
-- Python's `decimal.Decimal`, as the program uses it: finite numbers under the default context
-- (28 significant digits, ROUND_HALF_EVEN). A number is `coeff * 10 ^ -scale`; a positive exponent
-- is written out in the coefficient, so values are exact and only the way a number prints is lost.
-- The context's exponent limits (about 10 ^ 999999) and the sign of zero are left out.
mod Number
mod Rounding
pub mod Order
pub mod Exact
pub mod Positive
unfoldable pub use Number.*
unfoldable pub use Rounding.*
