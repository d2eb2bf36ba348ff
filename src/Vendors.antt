-- ===== src/Vendors.antt =====
-- The helpers that the vendor clients share (app/vendors), over a Redis that is a parameter.
pub mod RateLimiter
pub mod OauthState
