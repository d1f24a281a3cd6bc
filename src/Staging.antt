-- ===== src/Staging.antt =====
-- app/modules/staging/record_builder.py and app/modules/validation/record_ref.py
pub mod RecordRef
pub mod Fields
pub mod RoundTrip
pub mod Overlay
pub mod Groups
