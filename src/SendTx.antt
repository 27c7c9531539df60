-- ===== src/SendTx.antt =====
-- sendtx: the selection of the outputs that a transaction spends, and the transactions that are sent.
pub mod UtxoHelper
pub mod Data
pub mod Metadata
pub mod TxSender
