-- ===== src/Witnesses.antt =====
-- Tests: the theorems at concrete inputs, with toy instances of the parameters.
pub mod Clusters
pub mod FileLeaders
pub mod Peers
pub mod Codecs
pub mod Files
pub mod Exchanges
pub mod Configs
pub mod Engines
pub mod Nodes
pub mod Services
pub mod Servers
pub mod Requests
pub mod Loops
