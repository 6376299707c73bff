-- ===== src/Json/Limits.antt =====
-- What every value that `Parse` returns satisfies: the limits on nesting and on the count of values,
-- distinct keys, well-formed UTF-8.
mod Measures
mod Loops
pub mod Token
mod Fuel
pub mod Total
pub use Measures.*
use cheburnet.Base.{ℕ, zero, suc, ◌+◌, ◌≤◌, ◌<◌, ◌≡◌, Bytes, arith}
use cheburnet.Json.{Value, Result, ok}
use cheburnet.Json.Parser.{ParseOptions, parse}
