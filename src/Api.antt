-- ===== src/Api.antt =====
-- internal/api/consumer/server.go: the handlers of the API.
pub mod Validation
pub mod Server
pub mod Answers
pub mod Languages
pub mod Templates
pub mod Service
