-- ===== src/Rule.antt =====
-- rule/: which proxy a connection takes. `Item` has the rules, `Matcher` the kinds of matchers,
-- `Ruler` what picks one; the other children what is proved of them.
pub mod Item
pub mod Matcher
pub mod Ruler
pub mod Keywords
pub mod Verdicts
pub mod Domains
pub mod Choice
pub mod Names
pub mod Examples
