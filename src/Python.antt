-- ===== src/Python.antt =====
-- The part of Python that algorandscout's modules are written in: JSON values, dictionaries, raised
-- exceptions, `str` and `int` on integers, and the library functions that stay abstract.
mod Values
mod Results
pub mod Decimal
pub mod Gives
pub mod Entries
mod Platforms
pub use Values.*
pub use Results.*
pub use Platforms.*
