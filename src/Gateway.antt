-- ===== src/Gateway.antt =====
-- The quotas of a tenant (turboserve/gateway/limits.py).
pub mod TokenBucket
pub mod TenantLimiter
