-- ===== src/Examples.antt =====
-- Concrete jobs, workers and requests on which the theorems are applied.
mod Data
mod JobId
mod Schedule
mod Control
mod Executor
mod Cleanup
mod Views
mod Stream
mod Service
mod Web
mod Startup
mod Diagnostics
mod Journey
mod Reachable
