-- ===== src/Tests.antt =====
-- Runs on the fixtures of the unit tests in src/, and the theorems at concrete inputs.
mod Shapes
mod Budgets
mod Stencils
mod Devices
mod Polling
mod Steps
mod Jobs
mod Messages
mod Unready
mod Batches
mod Examples
mod Timesteps
mod Transfers
mod Charges
