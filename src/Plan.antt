-- ===== src/Plan.antt =====
-- flowdocs/dataops/lifecycle.py: the pure planner of backups, imports, restores, rehearsals and
-- rollbacks. The planner appends to four lists while it goes through its guards; `Draft` holds
-- these lists, and each stage of `compile_lifecycle_plan` is a function on drafts. The digest of
-- the canonical JSON (hashlib and json) is a parameter.
pub mod Types
pub mod Refusals
pub mod Literals
pub mod Stages
pub mod Compile
pub mod Cleared
pub mod Guards
pub mod Late
pub mod Switching
pub mod Controls
mod Examples
