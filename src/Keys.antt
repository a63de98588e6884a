-- ===== src/Keys.antt =====
-- The keys of the upstream services: `models/api_key.py` and `services/key_manager.py`.
pub mod ApiKey
pub mod RoundTrip
pub mod Manager
