-- ===== src/Domain.antt =====
-- The enumerations, rows and errors of src/fastauth/domain and src/fastauth/exceptions.py.
pub mod Enums
pub mod Models
pub mod Errors
pub mod Events
