-- ===== src/Models.antt =====
-- backend/app/models: the records and enumerations that the services keep and exchange.
pub mod Credits
pub mod Node
pub mod Job
pub mod P2p
pub mod Training
