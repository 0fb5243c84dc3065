-- ===== src/Text.antt =====
-- `std::string` as its bytes: the operations of the standard library that the sources use.
mod Codes
pub mod Find
pub mod Cstring
pub mod Getline
pub mod Decimal
pub use Codes.{codes}
unfoldable pub use Codes.{to_upper, to_lower, upper}
