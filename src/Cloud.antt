-- ===== src/Cloud.antt =====
-- pkg/auth: the credentials with which the listeners reach the clouds.
pub mod Aws
pub mod Gcp
