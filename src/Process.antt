-- ===== src/Process.antt =====
-- agent/processor.py, agent/cost_breaker.py, agent/processing_mode.py: the pipeline of one alert.
pub mod World
pub mod Rules
pub mod Reach
pub mod Sound
pub mod Breaker
pub mod Post
pub mod Analyse
pub mod Gates
pub mod Alert
pub mod Frame
pub mod Pipeline
pub mod Results
pub mod Silent
pub mod Settles
