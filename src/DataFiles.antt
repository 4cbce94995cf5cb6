-- ===== src/DataFiles.antt =====
-- internal/probeassemble/scan.go and datafiles.go: the files that operators such as @pmFromFile name.
pub mod Scan
pub mod Resolve
pub mod Lists
pub mod Tests
