-- ===== src/Accounts.antt =====
-- apps/accounts: accounts and their lockout, second factors, invitations and memberships.
pub mod Directory
pub mod Lockout
pub mod Mfa
pub mod Invitations
pub mod Members
pub mod Counting
pub mod Devices
pub mod Challenge
pub mod SignIn
pub mod Grants
pub mod Redemption
