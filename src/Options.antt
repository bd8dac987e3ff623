-- ===== src/Options.antt =====
-- options/option.go and ss/option.go: what the program is set up by. `Defs` has the options of the
-- transports, `Settings` what an option is applied to, and the other children the options.
pub mod Defs
pub mod Settings
pub mod Server
pub mod Transports
pub mod Local
