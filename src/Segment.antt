-- ===== src/Segment.antt =====
-- index_segment.rs: builders of index segments, their progress callback, and segment metadata.
mod Gate
mod Schema
mod Options
mod Model
mod Provenance
mod Models
mod Train
mod Builder
mod Metadata
mod Examples
