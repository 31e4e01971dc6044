-- ===== src/Tests.antt =====
-- The theorems at concrete inputs: a policy of three instructions over two requests.
mod Policy
mod Requests
mod Columns
mod Frames
mod Sessions
mod Source
mod Symbols
mod Responses
