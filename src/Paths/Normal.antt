-- ===== src/Paths/Normal.antt =====
-- The spellings of a directory that capio_normal_path of capio/posix/utils/filesystem.hpp makes equal.
use capio.Base.{List}
use Prim.Native.Char.{Char}
