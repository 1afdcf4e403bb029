-- ===== src/Kernel/System/Isolation.antt =====
-- What the invariant means for a program: the memory that it sees, and the calls that it can make.
use gyarad_os.Paging.{Paging}
use gyarad_os.Kernel.State.{Kernel, Env, Result, ret, enters, resumes, wait, overruns, fault}
use gyarad_os.Kernel.System.{System}
use gyarad_os.Kernel.System.Stacks.{Stacks}

module _ (env : Env) where
  abbrev Safe : Result → Type 0
  Safe (ret n k) = Unit
  Safe (enters e k) = Unit
  Safe (resumes s k) = Unit
  Safe wait = Unit
  Safe overruns = Unit
  Safe fault = ⊥
