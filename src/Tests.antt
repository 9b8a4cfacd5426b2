-- ===== src/Tests.antt =====
-- Runs of the model at concrete inputs, and the theorems at inputs that meet their hypotheses.
mod Pipeline
mod Calls
mod Parts
mod Progress
mod Lifecycle
mod Overlap
mod Endpoints
mod Dashboard
mod Tools
mod Schema
mod Wiring
