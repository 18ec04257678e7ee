-- ===== src/Onboarding.antt =====
-- Adaptive onboarding: dto/onboarding.py, models/account.py, repositories/onboarding.py and
-- services/onboarding.py. The proofs are in the modules below.
pub mod Types
pub mod Keys
pub mod Store
pub mod Branches
pub mod Readiness
pub mod Answers
pub mod Questions
pub mod Service
mod Tests
