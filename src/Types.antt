-- ===== src/Types.antt =====
-- The enumerations and the error classes of src/types.
pub mod Enums
pub mod Errors
unfoldable pub use Enums.*
unfoldable pub use Errors.*
