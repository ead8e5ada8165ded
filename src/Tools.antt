-- ===== src/Tools.antt =====
-- The command-line tools of src/tools/.
pub mod Words
pub mod Options
