-- ===== src/Errors.antt =====
-- exceptions
pub mod Tables
pub mod Classes
pub mod Enum
pub mod Pattern
pub mod Factory
pub mod Translate
