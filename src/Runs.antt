-- ===== src/Runs.antt =====
-- Runs of the models on concrete inputs.
mod Instances
mod Frames
mod Delivery
mod Guards
mod Users
mod Disguise
mod Servers
mod Client
mod Connections
mod Sessions
mod Peeks
mod Sealed
mod Webs
mod Dials
mod Pipes
mod Throttles
