-- ===== src/Emulator.antt =====
-- `MultiItemServer` of integration/run.py: the handlers that it adds to the python-snap7 emulator.
pub mod Server
pub mod Tables
pub mod Areas
pub mod Szl
pub mod Blocks
pub mod Upload
pub mod Fragments
pub mod Collected
pub mod Lists
pub mod Uploads
pub mod Download
pub mod Reads
pub mod Exchange
pub mod Writes
pub mod Isolation
