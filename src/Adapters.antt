-- ===== src/Adapters.antt =====
-- The reading of workbooks and the mapping of their columns (apps/server/app/adapters/files/importers).
pub mod Cells
pub mod Normalization
pub mod Bounds
pub mod CameraRows
pub mod Rows
pub mod Scan
pub mod Regions
pub mod Profiles
pub mod Candidates
pub mod Ranking
pub mod Outcomes
pub mod Transforms
pub mod Mapping
pub mod Settling
pub mod MappedRecords
mod Tests
