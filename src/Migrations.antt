-- ===== src/Migrations.antt =====
-- alembic/versions: the two revisions of the schema, as the commands that they give to Alembic. What the
-- database does at a command is not the repository's code: it is the parameter `Op`.
pub mod Commands
pub mod Tables
pub mod MoreTables
pub mod Versions
pub mod Laws
pub mod Undo
pub mod Order
pub mod Roundtrip
mod Tests
