-- ===== src/Filters.antt =====
-- The filters of the broker's accept loop: pkg/ipsum and pkg/geoblock.
pub mod Ipsum
pub mod Geoblock
mod Tests
