-- ===== src/Tests.antt =====
-- Concrete runs, and each theorem that has hypotheses at an input that meets them.
mod TaskGraphs
mod Ledgers
mod Signatures
mod Anchors
mod Stores
mod KmsClients
mod Audits
mod ObjectStores
mod Gates
mod GatedGraphs
mod Delegations
