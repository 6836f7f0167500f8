-- ===== src/Tests.antt =====
-- Runs of the model on concrete catalogues, and the theorems applied to them.
mod World
mod Story
mod Witnesses
mod Running
mod Devices
mod Writer
mod Checks
mod Moves
mod Selection
