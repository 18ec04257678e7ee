-- ===== src/Profile.antt =====
-- The adaptive profile builder: services/adaptive_preferences.py.
pub mod Answers
pub mod Bounds
pub mod Build
pub mod Effects
mod Evidence
mod Justified
pub mod Summary
mod Tests
