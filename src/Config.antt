-- ===== src/Config.antt =====
-- The nginx-like configuration: include/config_parser and src/config_parser.
pub mod Syntax
pub mod Lexer
pub mod Parser
pub mod Printer
pub mod Query
