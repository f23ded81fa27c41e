-- ===== src/Context.antt =====
-- agent/context_collector.py: `ContextCollector`, with the parsers of the answers of Loki and of
-- Prometheus as its children.
pub mod Loki
pub mod Prometheus
pub mod Collect
pub mod Laws
pub mod Pipeline
pub mod Held
