-- ===== src/Parsers.antt =====
-- parsers/: the parser of structured messages over the part of Python's `re` that it uses, and the
-- registry of parsers. The interface of a parser stands in Ingestion.
pub mod Text
pub mod Regex
pub mod Patterns
pub mod Structured
pub mod Registry
