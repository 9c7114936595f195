-- ===== src/Parse.antt =====
-- src/co/parse: the scanner, the scopes of the parser, the type identifiers and the constants.
pub mod Token
pub mod Scan
pub mod TypeCode
pub mod Convlit
pub mod TypeId
pub mod Scope
