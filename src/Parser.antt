-- ===== src/Parser.antt =====
-- The parser of build definitions: backend/server/services/queue/parser. The libraries that read YAML,
-- JSON and Jsonnet are parameters. An error keeps no message; texts are ASCII. A Go map is a list of
-- pairs, in the order in which a loop over it goes.
pub mod Raw
pub mod Patterns
pub mod References
pub mod Fields
pub mod Jobs
pub mod Version2
pub mod Versions
pub mod Agreement
pub mod Outcomes
pub mod Passwords
pub mod Sequences
pub mod Distinct
pub mod Accepted
pub mod FullSyntax
mod Tests
