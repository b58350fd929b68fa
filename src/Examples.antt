-- ===== src/Examples.antt =====
-- Concrete runs: each theorem that has hypotheses, applied where they hold.
mod Instances
mod Advice
mod Queue
mod Pages
mod Diff
mod Work
mod Resolution
mod Names
mod Values
mod Adapter
mod Graphs
mod Security
mod Registries
