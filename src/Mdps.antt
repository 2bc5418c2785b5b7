-- ===== src/Mdps.antt =====
-- src/mdps
pub mod CacheMdp
pub mod Examples
pub mod Discrete
pub mod RaceTrack
