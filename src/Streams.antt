-- ===== src/Streams.antt =====
-- exchange/binance_usdm/public_streams.py: the contracts and the parsers of the public streams.
pub mod Json
pub mod Schemas
pub mod Fields
pub mod Parsers
pub mod Conformance
pub mod Samples
