-- ===== src/Plugins.antt =====
-- src/fastauth/plugins: the API keys.
pub mod ApiKey
