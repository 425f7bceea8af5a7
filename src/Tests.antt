-- ===== src/Tests.antt =====
-- Runs of the engine, the canary controller and the limits on small inputs, each under the theorem that it instantiates.
mod Allocator
mod Caches
mod Sequences
mod Managers
mod Rollouts
mod Limits
mod Schedulers
