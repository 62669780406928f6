-- ===== src/Rest.antt =====
-- exchange/binance_usdm/rest.py: the retries of the public REST client.
pub mod Client
pub mod Retry
pub mod Verdict
pub mod Samples
