-- ===== src/Tests.antt =====
-- Runs of the definitions on concrete inputs, and each theorem at one.
mod Rings
mod Blobs
mod Commands
mod Heaps
mod Bridges
mod Configs
mod Apis
mod Devices
mod Channels
