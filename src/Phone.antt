-- ===== src/Phone.antt =====
-- modules/utilities/phone.service.ts. A number is the list of its code units.
mod Defs
unfoldable pub use Defs.*
pub mod Normal
pub mod Formats
pub mod Carriers
mod Tests
