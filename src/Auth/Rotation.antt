-- ===== src/Auth/Rotation.antt =====
-- About the refresh tokens of services/auth.py.
pub mod Rows
pub mod OneLive
pub mod Reach
pub mod Replay
