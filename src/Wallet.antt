-- ===== src/Wallet.antt =====
-- dike-web/lib/stellar: how the web application sends a transaction. What the wallet, the services and the
-- node answer is a parameter.
pub mod Errors
pub mod Polling
pub mod Execute
pub mod Sends
mod Tests
