-- ===== src/Tools.antt =====
-- tools/: the libraries and modules beside the two planes.
pub mod Bfd
