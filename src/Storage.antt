-- ===== src/Storage.antt =====
-- What the storage backends share.
pub mod Verification
