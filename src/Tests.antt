-- ===== src/Tests.antt =====
-- Inputs that the functions and the theorems run on.
mod Sample
mod Hosts
mod Rules
mod Levels
mod Directives
mod Lines
mod Requests
mod Browsers
mod Removal
mod Charsets
