-- ===== src/Report.antt =====
-- source/report.h: the report at the end of the program.
pub mod Totals
pub mod Contexts
pub mod Format
pub mod Asymmetry
pub mod Output
pub mod Quadrants
pub mod Reader
pub mod RoundTrip
pub mod Whole
pub mod Stacks
pub mod Sums
pub mod Texts
pub mod Updates
