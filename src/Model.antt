-- ===== src/Model.antt =====
-- The rows of the database, by the apps' models.py files, and the database itself.
mod States
mod Rows
mod Database
unfoldable pub use States.*
unfoldable pub use Rows.*
unfoldable pub use Database.*
