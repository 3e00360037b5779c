-- ===== src/Router.antt =====
-- model_router.py: the circuit breaker, the messages, the providers, the retries and the routing.
pub mod Breaker
pub mod Messages
pub mod Providers
pub mod Retry
pub mod Route
mod Examples
