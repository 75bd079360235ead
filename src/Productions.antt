-- ===== src/Productions.antt =====
-- src/productions/production-state.machine.ts and src/productions/productions-state.service.ts.
pub mod Transition
pub mod State
mod Tests
