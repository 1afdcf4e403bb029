-- ===== src/Kernel/Calls.antt =====
-- `read` and `write` on the descriptors of the running process.
use gyarad_os.Base.{
  ℕ, zero, suc, ◌≤◌, ◌≡◌, ◌≢◌, ◌⊎◌, inl, inr, refl, ap, ◌∙◌, Option, none, some, true, false, arith,
  ◌==◌, if◌then◌else◌, Bool, not, ◌||◌,
}
use gyarad_os.Base.Int.{ℤ, pos, negsuc}
use gyarad_os.Machine.Memory.{Addr, Mem}
use gyarad_os.Fs.{File}
use gyarad_os.Fs.Calls.{dir_read, fs_read}
use gyarad_os.Drivers.Rtc.{rtc_read}
use gyarad_os.Console.{terminal_read}
use gyarad_os.Kernel.{
  read, write, dispatch_read, dispatch_write, call_terminal_read, call_rtc_read, call_file_read,
  as_file, in_use,
}
use gyarad_os.Kernel.State.{
  Ops, stdin_ops, stdout_ops, Kernel, Env, Result, ret, enters, resumes, wait, overruns, fault, mem,
  set_mem, cli, as_uint,
}
use gyarad_os.Kernel.Table.{IsTable, IsDevice}
use gyarad_os.Kernel.System.Family.{Quiet, quiet, Quiet-∙, Quiet-set_fd, Settles}

-- A process runs in the active terminal, and its descriptor table is well formed.
pub record HasTable (k : Kernel) (p : ℕ) : Type 0 where
  pub running : k.curr_proc k.curr_active_term ≡ some p
  pub table : IsTable (k.pcbs p).fds

-- A call that went through no null pointer, and if it came back, left the process with a
-- well-formed table.
abbrev pub Served : (p : ℕ) → Result → Type 0
Served p (ret n k) = HasTable k p
Served p (enters e k) = ⊥
Served p (resumes e k) = ⊥
Served p wait = Unit
Served p overruns = Unit
Served p fault = ⊥

pub HasTable-Quiet : {k k' : Kernel} {p : ℕ} → HasTable k p → Quiet k k' → HasTable k' p
HasTable-Quiet {k} {k'} {p} has q = record {
  running = rw q.term (ap (λ f. f k.curr_active_term) q.alike.curr ∙ has.running);
  table = (q.alike.pcb p).table has.table;
}

pub Served-Settles : {k : Kernel} {p : ℕ} (r : Result) → HasTable k p → Settles k r → Served p r
Served-Settles (ret n k') has q = HasTable-Quiet has q
Served-Settles (enters e k') has q = absurd q
Served-Settles (resumes s k') has q = absurd q
Served-Settles wait has q = tt
Served-Settles overruns has q = tt
Served-Settles fault has q = absurd q

module _ (env : Env) {k : Kernel} {p : ℕ} (has : HasTable k p) where
  open env use {fs, temp}

  terminal_read-Settles :
      (buf : Addr) (nbytes : ℤ) → Settles k (call_terminal_read env buf nbytes k)
  unfolding call_terminal_read
  terminal_read-Settles buf nbytes =
      elim (terminal_read k.curr_active_term buf nbytes k.console)
        as (λ r.
          Settles k (elim r [ none ↦ wait | some (n, c) ↦ ret n (record k { console = c }) ])) [
            | none ↦ tt
            | some (n, c) ↦ quiet k c k.irq k.intr_occ
          ]

  rtc_read-Settles : Settles k (call_rtc_read env k)
  unfolding call_rtc_read
  rtc_read-Settles =
      elim (rtc_read k.intr_occ)
        as (λ r.
          Settles k
            (elim r [ none ↦ wait | some (n, left) ↦ ret n (record k { intr_occ = left }) ])) [
              | none ↦ tt
              | some (n, left) ↦ quiet k k.console k.irq left
            ]

  file_read-Settles :
      (i : ℕ) (r : Option (ℤ × Mem × File))
      → 2 ≤ i
      → IsDevice ((k.pcbs p).fds i).operations_pointer
      → Settles k (call_file_read env p i r k)
  file_read-Settles i none lo dev = tt
  file_read-Settles i (some (n, m, file)) lo dev =
      Quiet-∙ (quiet k (set_mem k m).console k.irq k.intr_occ)
        (Quiet-set_fd (set_mem k m) p i _ lo (λ u. dev))

  dispatch_read-Settles :
      (i : ℕ) (buf : Addr) (nbytes : ℤ)
      → (((k.pcbs p).fds i).operations_pointer ≡ stdin_ops)
        ⊎ ((2 ≤ i) × IsDevice ((k.pcbs p).fds i).operations_pointer)
      → Settles k (dispatch_read env ((k.pcbs p).fds i).operations_pointer p i buf nbytes k)
  unfolding dispatch_read
  dispatch_read-Settles i buf nbytes (inl e) = rw e (terminal_read-Settles buf nbytes)
  dispatch_read-Settles i buf nbytes (inr (lo, inl e)) = rw e rtc_read-Settles
  dispatch_read-Settles i buf nbytes (inr (lo, inr (inl e))) =
      let r = dir_read fs (mem k) (as_file env k p i) buf (as_uint nbytes) in
      rw e (file_read-Settles i r lo (inr (inl e)))
  dispatch_read-Settles i buf nbytes (inr (lo, inr (inr e))) =
      let r = fs_read fs (mem k) temp (as_file env k p i) buf (as_uint nbytes) in
      rw e (file_read-Settles i r lo (inr (inr e)))

  settled : Settles k (ret (pos 0) k)
  settled = quiet k k.console k.irq k.intr_occ

  dispatch_write-Settles :
      (ops : Ops) (buf : Addr) (nbytes : ℤ)
      → (ops ≡ stdout_ops) ⊎ IsDevice ops
      → Settles k (dispatch_write env ops buf nbytes k)
  unfolding dispatch_write
  dispatch_write-Settles ops buf nbytes (inl e) = rw e (quiet k _ k.irq k.intr_occ)
  dispatch_write-Settles ops buf nbytes (inr (inl e)) = rw e (quiet k _ k.irq k.intr_occ)
  dispatch_write-Settles ops buf nbytes (inr (inr (inl e))) = rw e settled
  dispatch_write-Settles ops buf nbytes (inr (inr (inr e))) = rw e settled

  -- A descriptor that `read` lets through is 0 or one of the others.
  readable :
      (i : ℕ)
      → i ≤ 7
      → i ≢ 1
      → ((k.pcbs p).fds i).flags ≡ 1
      → (((k.pcbs p).fds i).operations_pointer ≡ stdin_ops)
        ⊎ ((2 ≤ i) × IsDevice ((k.pcbs p).fds i).operations_pointer)
  readable zero hi ne used = inl has.table.input
  readable (suc zero) hi ne used = absurd (ne refl)
  readable (suc (suc i)) hi ne used =
      inr (omega arith, has.table.others (suc (suc i)) (omega arith) hi used)

  -- A descriptor that `write` lets through is 1 or one of the others.
  writable :
      (i : ℕ)
      → i ≤ 7
      → i ≢ 0
      → ((k.pcbs p).fds i).flags ≡ 1
      → (((k.pcbs p).fds i).operations_pointer ≡ stdout_ops)
        ⊎ IsDevice ((k.pcbs p).fds i).operations_pointer
  writable zero hi ne used = absurd (ne refl)
  writable (suc zero) hi ne used = inl has.table.output
  writable (suc (suc i)) hi ne used = inr (has.table.others (suc (suc i)) (omega arith) hi used)

  -- The tests of `read` and `write` let through the number of a descriptor that is in use.
  accepted :
      (fd : ℤ) (one : ℕ) (buf : Addr)
      → (buf == 0 || as_uint fd == one || not (in_use env k p fd)) ≡ false
      → (i : ℕ) × (as_uint fd ≡ i) × (i ≤ 7) × (i ≢ one) × (((k.pcbs p).fds i).flags ≡ 1)
  accepted (negsuc n) one buf e = absurd (ground arith)
  accepted (pos i) one buf e = (i, refl, ground arith, (λ s. ground arith), ground arith)

  pub Settles-if :
      (b : Bool) (x y : Result)
      → Settles k x
      → (b ≡ false → Settles k y)
      → Settles k (if b then x else y)
  Settles-if true x y yes' no' = yes'
  Settles-if false x y yes' no' = no' refl

  pub refused-Settles : Settles k (ret (negsuc 0) (cli k))
  refused-Settles = quiet k k.console false k.intr_occ

  pub read-Settles : (fd : ℤ) (buf : Addr) (nbytes : ℤ) → Settles k (read env fd buf nbytes k)
  unfolding read
  read-Settles fd buf nbytes =
      rw (Settles, has.running)
        (Settles-if _ _ _ refused-Settles (λ e.
          let (i, same, hi, ne, used) = accepted fd 1 buf e in
          rw same (dispatch_read-Settles i buf nbytes (readable i hi ne used))))

  pub write-Settles : (fd : ℤ) (buf : Addr) (nbytes : ℤ) → Settles k (write env fd buf nbytes k)
  unfolding write
  write-Settles fd buf nbytes =
      rw (Settles, has.running)
        (Settles-if _ _ _ refused-Settles (λ e.
          let (i, same, hi, ne, used) = accepted fd 0 buf e in
          rw same (dispatch_write-Settles _ buf nbytes (writable i hi ne used))))

  -- `read` of any descriptor by a process with a well-formed table goes through no null pointer,
  -- and leaves the table well formed when it comes back.
  pub read-Served : (fd : ℤ) (buf : Addr) (nbytes : ℤ) → Served p (read env fd buf nbytes k)
  read-Served fd buf nbytes = Served-Settles _ has (read-Settles fd buf nbytes)

  -- `write` to any descriptor by a process with a well-formed table goes through no null pointer,
  -- and leaves the table well formed when it comes back.
  pub write-Served : (fd : ℤ) (buf : Addr) (nbytes : ℤ) → Served p (write env fd buf nbytes k)
  write-Served fd buf nbytes = Served-Settles _ has (write-Settles fd buf nbytes)
