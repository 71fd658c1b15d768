-- ===== src/Tests.antt =====
-- Runs of the model at small inputs, and each theorem at an input that meets its hypotheses.
mod Sample
mod Builder
mod Latency
mod Collect
mod Federation
mod Config
mod Loading
mod Response
mod Headers
mod Handler
mod Routing
mod Startup
mod Server
