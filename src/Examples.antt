-- ===== src/Examples.antt =====
-- Concrete routers, caches, limiters and configurations, at which the theorems are applied.
mod Routing
mod Caching
mod Admission
mod Configuration
mod Disk
mod Plugins
mod Requests
mod Repeats
mod Starting
mod Commands
mod Certificates
