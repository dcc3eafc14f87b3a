-- ===== src/Schedules.antt =====
-- Schedule tables: the header-driven column resolver (src/pipeline/schedule_resolver.py), the row
-- selectors (src/pipeline/phase2_schedule_parser.py), and the quantity-bearing items made of the
-- rows (src/takeoff/quantity_schedules.py).
pub mod Cells
pub mod Marks
pub mod Schema
pub mod Labels
pub mod Resolver
pub mod Rows
pub mod Items
pub mod Entries
pub mod Samples
