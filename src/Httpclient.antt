-- ===== src/Httpclient.antt =====
-- httpclient/client.go: the circuit breaker and the client that retries.
pub mod Breaker
pub mod Config
pub mod Client
mod Tests
