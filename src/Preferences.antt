-- ===== src/Preferences.antt =====
-- User and trip preferences: repositories/preferences.py and services/preferences.py.
pub mod Store
pub mod Service
pub mod Precedence
pub mod Updates
pub mod Requests
mod Tests
