-- ===== src/Api.antt =====
-- api/main.py
pub mod RateLimit
pub mod CircuitBreaker
pub mod Request
pub mod Endpoints
pub mod Lifespan
pub mod Middleware
