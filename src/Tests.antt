-- ===== src/Tests.antt =====
-- Runs of the models on concrete inputs, and the theorems at inputs that meet their hypotheses.
mod Signals
mod Groups
mod Pipes
mod Regions
mod Processes
mod Boot
mod Descriptors
mod Frames
mod Strings
mod Tables
mod Paths
mod Spaces
mod Faults
mod Terminal
