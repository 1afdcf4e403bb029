-- ===== src/Kernel/System/Invariant.antt =====
-- What holds in every state that the system comes to.
use gyarad_os.Paging.{Paging}
use gyarad_os.Kernel.State.{Kernel}
use gyarad_os.Kernel.System.{System}
use gyarad_os.Kernel.System.Stacks.{Stacks}
