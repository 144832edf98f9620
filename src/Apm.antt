-- ===== src/Apm.antt =====
-- The APM ingestion server, apm-server/server.js: the event buffer, the statistics, the metrics
-- report, the request router and the connections whose bodies are read in pieces.
pub mod Buffer
pub mod Stats
pub mod Metrics
pub mod Query
pub mod Router
pub mod Connections
mod Tests
