-- ===== src/Util.antt =====
-- Small helpers under util/.
pub mod HexFormat
pub mod OptionParser
