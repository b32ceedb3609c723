-- ===== src/Surface.antt =====
-- The trees of components that plugins mount: src/ui/model.
pub mod Tree
pub mod Classes
pub mod Build
pub mod Visit
pub mod Store
