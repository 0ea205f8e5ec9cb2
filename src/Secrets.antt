-- ===== src/Secrets.antt =====
-- The secrets detection plugin (crates/plugins/cpex-secrets-detection/src).
pub mod Patterns
pub mod Config
pub mod Scanner
pub mod Plugin
