-- ===== src/Flows.antt =====
-- src/fastauth/flows: what the routes call.
pub mod Context
pub mod Creation
pub mod Mail
pub mod Credentials
pub mod SignIn
pub mod Sessions
pub mod Refresh
pub mod Hooks
pub mod PasswordReset
pub mod ChangePassword
pub mod Verification
pub mod SignUp
pub mod ChangeEmail
pub mod UserManagement
pub mod EmailOtp
