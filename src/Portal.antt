-- ===== src/Portal.antt =====
-- The dashboard page, portal-svelte/src/routes/+page.svelte.
pub mod Feed
pub mod Services
pub mod Statuses
pub mod Cycle
mod Tests
