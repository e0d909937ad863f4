-- ===== src/Examples.antt =====
-- Concrete states at which the hypotheses of the theorems hold.
mod Data
mod Calls
mod Ceilings
mod Defects
mod Linked
mod Tables
mod Traces
mod Output
mod Program
mod Reports
mod Races
mod Conditions
