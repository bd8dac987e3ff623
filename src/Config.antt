-- ===== src/Config.antt =====
-- config/config.go: what the program makes of its configuration file. `Types` has the file's
-- contents, `Rules`, `Servers` and `LocalPart` what is built from them.
pub mod Types
pub mod Rules
pub mod Servers
pub mod LocalPart
pub mod Description
pub mod ServerLaws
pub mod Apply
pub mod LocalDescription
pub mod LocalLaws
pub mod Whole
pub mod Examples
pub mod RuleLaws
