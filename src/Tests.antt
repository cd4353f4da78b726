-- ===== src/Tests.antt =====
-- Test runs of the definitions, and each property at a concrete input.
mod Io
mod Keyboard
mod Ata
mod Disk
mod Bus
mod Memory
mod Video
mod Machine
mod Table
mod Start
mod Viewer
