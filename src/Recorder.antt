-- ===== src/Recorder.antt =====
-- data/writer.py and exchange/binance_usdm/websocket.py: the recorder of public streams.
pub mod Flush
pub mod Lifecycle
pub mod Calls
pub mod Sequence
pub mod Gaps
pub mod Buffers
pub mod Delivery
pub mod Written
pub mod Inspection
pub mod Recovery
pub mod Settled
pub mod InFlight
pub mod Pass
pub mod RecoveryCalls
pub mod OrphanCalls
pub mod Orphans
pub mod Samples
pub mod RecoverySamples
