-- ===== src/Python.antt =====
-- What the code uses of Python itself: exceptions, JSON values, conversions.
mod Exceptions
mod Values
mod Numbers
mod Digits
mod Spaces
mod Strings
mod Codecs
mod Platform
mod Access
unfoldable pub use Exceptions.*
unfoldable pub use Values.*
unfoldable pub use Numbers.*
pub use Digits.*
pub use Spaces.*
unfoldable pub use Strings.*
unfoldable pub use Codecs.*
unfoldable pub use Platform.*
unfoldable pub use Access.*
