-- ===== src/Dict.antt =====
-- Python's `dict` with text keys, as the entries in insertion order: the tables that the in-memory
-- adapter (src/fastauth/storage/memory.py) keeps its rows in.
mod Defs
pub mod Laws
pub mod Find
pub mod Fields
pub mod Tables
pub mod Rows
unfoldable pub use Defs.{Dict, get, put, remove, remove_all, keys_where, find, values, passes}
pub use Defs.{Distinct, row_of}
