-- ===== src/Toolparse.antt =====
-- internal/toolparse/parser.go: the names of tools.
pub mod Names
