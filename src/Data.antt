-- ===== src/Data.antt =====
-- The entities of the database, from the `entities` folders of src/modules. Of a text that the
-- program only stores and returns, such as a description, a message or a note, most are left out.
mod Accounts
mod Billing
pub use Accounts.*
pub use Billing.*
