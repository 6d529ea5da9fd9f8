-- ===== src/Runtime.antt =====
-- src/runtime: the resource budget of a thread and the allocation wrappers.
pub mod Budget
