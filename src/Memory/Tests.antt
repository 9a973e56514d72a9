-- ===== src/Memory/Tests.antt =====
-- Runs on a memory whose byte at address a is a % 7.
use northos.Prelude.{◌%◌}
use northos.Memory.{Bytes, memmove}
use northos.Memory.Copy.{Moved, memmove-Moved}

abbrev sevens : Bytes
sevens a = a % 7

memmove-Moved_run : Moved 103 100 5 sevens (memmove 103 100 5 sevens)
memmove-Moved_run = memmove-Moved 103 100 5 sevens
