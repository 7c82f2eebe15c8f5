-- ===== src/Http.antt =====
-- src/runtime/http_probe: the response of a runtime's health endpoint.
pub mod Headers
pub mod Reader
