-- ===== src/Blocklist.antt =====
-- The rest of the list compiler, internal/parser/compiler.go: the parsers of lists, the zones of
-- CompileLists and their files, the address lists, and the test for changes.
pub mod Lines
pub mod Rules
pub mod Cosmetic
pub mod Zones
pub mod Exceptions
pub mod Addresses
pub mod Aggregating
pub mod Files
pub mod Compiling
pub mod Stale
