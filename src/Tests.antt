-- ===== src/Tests.antt =====
-- Sample inputs, tests at them, and the theorems at inputs where their hypotheses hold.
mod Samples
mod Topics
mod Saving
mod Serving
mod Devices
mod Lifecycle
mod Programs
mod Walking
mod Ending
