-- ===== src/Projection.antt =====
-- internal/api/projection/registry.go: the parsing of the fields of a response, and its suggestions.
pub mod Distance
pub mod Parse
pub mod Nearest
mod Examples
