-- ===== src/Macros.antt =====
-- The crate yaffle-macros: what `#[derive(YaffleSchema)]` reads from a struct's attributes, and the
-- code that it generates for it.
pub mod Attributes
pub mod Expr
pub mod Mapping
pub mod Tantivy
pub mod Display
