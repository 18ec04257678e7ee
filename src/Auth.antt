-- ===== src/Auth.antt =====
-- Accounts and refresh tokens: models/account.py, repositories/users.py, common/security.py and
-- services/auth.py. The proofs are in the modules below.
pub mod Store
pub mod Security
pub mod Service
pub mod Refusals
pub mod Rotation
mod Tests
