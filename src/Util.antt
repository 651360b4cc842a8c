-- ===== src/Util.antt =====
-- The helpers of app/src/util/.
pub mod Binary
pub mod Str
pub mod VecDeque
pub mod AudioBuf
