-- ===== src/Tests.antt =====
-- The theorems on concrete inputs, and runs of the program's operations.
mod Browse
mod Cache
mod Classify
mod Definition
mod EventDisplay
mod NaturalSort
mod Pages
mod Parameters
mod RequestManager
mod Server
mod Sources
mod Start
mod TimeSeries
mod Upload
mod Workspace
