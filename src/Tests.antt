-- ===== src/Tests.antt =====
-- Runs of the theorems on concrete values.
mod Fixtures
mod OfAddresses
mod OfEntries
mod OfTables
mod OfDatabase
mod OfData
mod OfProto
mod OfUtil
mod Nodes
mod OfClients
mod OfNodes
mod OfPeers
mod OfConnections
mod OfCommands
mod OfMaps
