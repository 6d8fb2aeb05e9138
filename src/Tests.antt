-- ===== src/Tests.antt =====
-- Runs of the program at concrete inputs, and the theorems at such inputs.
mod Data
mod Env
mod Messages
mod Node
mod Peers
mod Files
mod Starting
mod Channel
mod Ids
mod Requests
