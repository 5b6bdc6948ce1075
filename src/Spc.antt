-- ===== src/Spc.antt =====
-- internal/spc: the storm reports of the SPC.
pub mod Report
pub mod Client
pub mod Csv
