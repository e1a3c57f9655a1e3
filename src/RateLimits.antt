-- ===== src/RateLimits.antt =====
-- src/aep/model_rate_limits.py: the pacing of requests to a model provider.
pub mod Coordinator
pub mod Pacing
pub mod Waiting
mod Examples
