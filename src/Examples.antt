-- ===== src/Examples.antt =====
-- The theorems at concrete inputs, and runs of the model on the inputs of the repository's tests.
mod Inputs
mod Fields
mod Frames
mod Streams
mod Requests
mod Messages
mod Nodes
mod Services
