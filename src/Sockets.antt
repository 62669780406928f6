-- ===== src/Sockets.antt =====
-- exchange/binance_usdm/websocket.py: `RoutedPublicWebSocket`.
pub mod Client
pub mod Session
pub mod Lossless
pub mod Reception
pub mod Reconnects
pub mod Records
pub mod Backoff
pub mod Samples
