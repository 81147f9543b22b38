-- ===== src/Web.antt =====
-- The web application, apps/web/src.
pub mod DateRange
pub mod Performance
pub mod Heatmap
