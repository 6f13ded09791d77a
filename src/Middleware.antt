-- ===== src/Middleware.antt =====
-- internal/api/middleware/logger.go.
pub mod Headers
pub mod Redaction
pub mod Messages
pub mod Logger
