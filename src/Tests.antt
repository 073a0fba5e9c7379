-- ===== src/Tests.antt =====
-- The theorems at concrete inputs, and runs of the code of the model.
mod Records
mod Routes
mod Reports
mod Nodes
mod Network
mod Acl
