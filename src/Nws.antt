-- ===== src/Nws.antt =====
-- internal/nws: the alerts of api.weather.gov.
pub mod Alert
pub mod Products
pub mod Fips
pub mod Vtec
pub mod Tags
pub mod Detection
pub mod Motion
pub mod Client
