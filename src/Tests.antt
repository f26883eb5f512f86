-- ===== src/Tests.antt =====
-- The theorems at concrete inputs, and the data that they share.
mod Sample
mod Inputs
mod Runs
mod Journal
mod Claim
mod Controller
mod Observer
mod Frames
mod Whole
mod Namespace
