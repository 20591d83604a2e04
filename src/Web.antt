-- ===== src/Web.antt =====
-- src/fastauth/web: the checks of origins and of callback URLs.
pub mod Csrf
pub mod Callbacks
