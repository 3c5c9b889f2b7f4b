-- ===== src/Tests.antt =====
-- Runs of the definitions on small inputs, and the theorems applied to them.
mod Diagram
mod Images
mod RowCache
mod Trials
mod Reruns
mod Designs
mod Resamples
mod Searches
mod Drawing
mod Models
mod Trees
mod Classes
mod Observed
