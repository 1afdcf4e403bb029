-- ===== src/Kernel/Assembly/Jumps.antt =====
-- The conditional jumps, where the comparison is known.
use gyarad_os.Base.{ℕ, suc, ◌≡◌, ap, Bool, List, ◌∷◌, if◌then◌else◌}
use gyarad_os.Kernel.Assembly.{Callee, Cpu, Instr, Label, jl, jg, run, signed_ltb}

module _ (body : Callee → Cpu → Cpu) (code : Label → List Instr) where
  pub run-jl :
      (f : ℕ) (l : Label) (i : List Instr) (p : Cpu) (less : Bool)
      → signed_ltb p.left p.right ≡ less
      → run body code (suc f) (jl l ∷ i) p
        ≡ (if less then run body code f (code l) p else run body code f i p)
  unfolding run
  run-jl f l i p less e = ap (λ t. if t then run body code f (code l) p else run body code f i p) e

  pub run-jg :
      (f : ℕ) (l : Label) (i : List Instr) (p : Cpu) (greater : Bool)
      → signed_ltb p.right p.left ≡ greater
      → run body code (suc f) (jg l ∷ i) p
        ≡ (if greater then run body code f (code l) p else run body code f i p)
  unfolding run
  run-jg f l i p greater e =
      ap (λ t. if t then run body code f (code l) p else run body code f i p) e
