-- ===== src/Tests.antt =====
-- Tests, and the theorems at concrete inputs.
mod Fixtures
mod Creation
mod Processing
mod Polling
mod Access
mod Steps
mod Requests
mod Tokens
mod Retries
mod Encodings
mod Serving
mod Setup
mod Draining
mod Accounts
mod Interleaving
