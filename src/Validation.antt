-- ===== src/Validation.antt =====
-- validator.go and conditional_response.go: asking the origin whether a stored response is current.
pub mod Warnings
pub mod Retention
pub mod Quoting
pub mod Defs
pub mod Merge
