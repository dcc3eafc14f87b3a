-- ===== src/Shard.antt =====
-- Sharded takeoff of a drawing set: the planner (service/takeoff/planner.py), the extractor's
-- page loop (src/takeoff/quantity_schedules.py), the reduce (service/takeoff/reduce.py) and the
-- orchestrator with its completion counter (service/jobs/orchestrator.py).
pub mod Planner
pub mod Extract
pub mod Orchestrator
