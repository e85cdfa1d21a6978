-- ===== src/Tests.antt =====
-- Runs at concrete inputs.
mod Decodings
mod Scans
mod Times
mod Logs
mod Answers
mod Deliveries
mod Consumers
mod Stores
mod Journeys
mod Sources
mod Passes
mod Changes
mod Decimals
mod Wirings
mod Sendings
mod Configs
mod Provisions
mod Monitors
