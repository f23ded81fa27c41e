-- ===== src/System/Tasks.antt =====
-- The tasks of the program are made of the steps of the system.
use llopster.Process.World.{World}
use llopster.Process.Pipeline.{Pipeline}
