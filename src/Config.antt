-- ===== src/Config.antt =====
-- crates/zaphyl-config/src: the configuration, its validation, the managed sites, and loading.
pub mod Types
pub mod Validate
pub mod Sites
pub mod Load
