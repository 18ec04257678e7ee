-- ===== src/Recommendations.antt =====
-- Live recommendations: services/recommendations.py over repositories/recommendations.py.
pub mod Candidates
pub mod Choice
mod Coherence
pub mod Generated
mod Names
pub mod Owner
mod Tests
pub mod RoundTrip
pub mod Runs
pub mod Server
pub mod Service
pub mod Tables
