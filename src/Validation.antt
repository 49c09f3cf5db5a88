-- ===== src/Validation.antt =====
-- Validation by rules, pkg/validation/validation.go. A struct is what reflection shows of it; a text is
-- the list of its bytes. Runes, floats, URLs and regular expressions are the parameter `Library`.
pub mod Choices
pub mod Email
pub mod Rules
pub mod Structs
mod Tests
