-- ===== src/Kernel.antt =====
-- The file system calls of kernel/syscall.c, and the kernel state that they work on.
-- A PCB stands 8 KB below the one before it, from 8 MB down, so a `pcb_t *` is its number, and
-- `none` for NULL. Its numbers are a record; its byte arrays (`file_name` of a descriptor, `args`)
-- stand in memory at their addresses. A user's pointer is an address, 0 for NULL.
pub mod State
pub mod Table
pub mod Calls
pub mod Open
pub mod Process
pub mod Switch
pub mod Keyboard
pub mod Interrupts
pub mod Sound
pub mod Heap
pub mod Dispatch
pub mod System
pub mod Assembly
pub mod Tests
use gyarad_os.Base.{
  ℕ, zero, suc, ◌+◌, ◌-◌, ◌*◌, ◌%◌, ◌^◌, Bool, true, false, ◌||◌, ◌&&◌, not, Option, none, some,
  ltb, leb, ◌==◌, if◌then◌else◌,
}
use gyarad_os.Base.Int.{ℤ, pos, negsuc}
use gyarad_os.Machine.Memory.{Addr, Mem, load32, store32}
use gyarad_os.Machine.Bus.{Log}
use gyarad_os.Str.{strlen, strcpy, strncpy}
use gyarad_os.Fs.{File, read_dentry_by_name, is_zero}
use gyarad_os.Fs.Calls.{
  fs_read, fs_write, fs_open, fs_close, dir_read, dir_write, dir_open, dir_close, get_inode,
  is_minus_one,
}
use gyarad_os.Drivers.Rtc.{rtc_open, rtc_close, rtc_read, rtc_write}
use gyarad_os.Console.{terminal_read, terminal_write}
use State.{
  Ops, null, stdin_ops, stdout_ops, rtc_ops, dir_ops, files_ops, Descriptor, Pcb, Kernel, Env,
  Result, ret, wait, overruns, fault, fits, mem, set_mem, log, set_log, cli, restore, fd_name,
  args_addr, set_pcb, set_fd, as_uint, as_int,
}

-- The search of `open` for a descriptor that is not in use, with `n` of the six left.
unfoldable pub free_fd : ℕ → (ℕ → Descriptor) → (i : ℕ) → Option ℕ
free_fd zero fds i = none
free_fd (suc n) fds i =
    let rest = free_fd n fds (i + 1) in if (fds i).flags == 0 then some i else rest

module _ (env : Env) where
  open env use {fs, dev, floats, temp}

  -- `terminal_read` in the running terminal.
  unfoldable pub call_terminal_read : (buf : Addr) → (nbytes : ℤ) → Kernel → Result
  call_terminal_read buf nbytes k = elim (terminal_read k.curr_active_term buf nbytes k.console) [
    | none ↦ wait
    | some (n, c) ↦ ret n (record k { console = c })
  ]

  unfoldable pub call_rtc_read : Kernel → Result
  call_rtc_read k = elim (rtc_read k.intr_occ) [
    | none ↦ wait
    | some (n, left) ↦ ret n (record k { intr_occ = left })
  ]

  -- A read of a directory or a file: the position goes back to the descriptor.
  abbrev pub call_file_read : (p i : ℕ) → Option (ℤ × Mem × File) → Kernel → Result
  call_file_read p i none k = wait
  call_file_read p i (some (n, m, file)) k =
      let k' = set_mem k m in
      ret n (set_fd k' p i (record ((k'.pcbs p).fds i) { file_position = file.file_position }))

  abbrev pub as_file : Kernel → (p i : ℕ) → File
  as_file k p i = record {
    file_position = ((k.pcbs p).fds i).file_position;
    file_name = fd_name p i;
  }

  -- `operations_pointer[READ](&fds[fd], buf, nbytes)`, for a buffer that is not over the numbers of
  -- the kernel, which the system call sees to (Kernel/Dispatch): the code does not look.
  unfoldable pub dispatch_read : Ops → (p i : ℕ) → (buf : Addr) → (nbytes : ℤ) → Kernel → Result
  dispatch_read null p i buf nbytes k = fault
  dispatch_read stdin_ops p i buf nbytes k = call_terminal_read buf nbytes k
  dispatch_read stdout_ops p i buf nbytes k = fault
  dispatch_read rtc_ops p i buf nbytes k = call_rtc_read k
  dispatch_read dir_ops p i buf nbytes k =
      call_file_read p i (dir_read fs (mem k) (as_file k p i) buf (as_uint nbytes)) k
  dispatch_read files_ops p i buf nbytes k =
      call_file_read p i (fs_read fs (mem k) temp (as_file k p i) buf (as_uint nbytes)) k

  -- `fd > 7 || fd < 0 || …`: the number of a descriptor that is in use.
  abbrev pub in_use : Kernel → (p : ℕ) → ℤ → Bool
  in_use k p (negsuc n) = false
  in_use k p (pos i) = if ltb 7 i then false else ((k.pcbs p).fds i).flags == 1

  -- `read`: fd 1 is not for reading.
  unfoldable pub read : (fd : ℤ) → (buf : Addr) → (nbytes : ℤ) → Kernel → Result
  read fd buf nbytes k = elim (k.curr_proc k.curr_active_term) [
    | none ↦
        -- the other tests stand before the one that goes through the pointer
        if buf == 0 || ltb 7 (as_uint fd) || as_uint fd == 1 then ret (negsuc 0) (cli k) else fault
    | some p ↦
        if buf == 0 || as_uint fd == 1 || not (in_use k p fd)
        then ret (negsuc 0) (cli k)
        else dispatch_read ((k.pcbs p).fds (as_uint fd)).operations_pointer p (as_uint fd) buf
            nbytes k
  ]

  -- `operations_pointer[WRITE](fd, buf, nbytes)`.
  unfoldable pub dispatch_write : Ops → (buf : Addr) → (nbytes : ℤ) → Kernel → Result
  dispatch_write null buf nbytes k = fault
  dispatch_write stdin_ops buf nbytes k = fault
  dispatch_write stdout_ops buf nbytes k =
      let (n, c) = terminal_write k.curr_active_term buf nbytes k.console in
      ret n (record k { console = c })
  dispatch_write rtc_ops buf nbytes k =
      let (n, l) =
        rtc_write floats dev (if buf == 0 then none else some (as_int (load32 (mem k) buf))) nbytes
          (log k) in
      ret n (set_log k l)
  dispatch_write dir_ops buf nbytes k = ret dir_write k
  dispatch_write files_ops buf nbytes k = ret fs_write k

  -- `write`: fd 0 is not for writing.
  unfoldable pub write : (fd : ℤ) → (buf : Addr) → (nbytes : ℤ) → Kernel → Result
  write fd buf nbytes k = elim (k.curr_proc k.curr_active_term) [
    | none ↦
        if buf == 0 || ltb 7 (as_uint fd) || as_uint fd == 0 then ret (negsuc 0) (cli k) else fault
    | some p ↦
        if buf == 0 || as_uint fd == 0 || not (in_use k p fd)
        then ret (negsuc 0) (cli k)
        else dispatch_write ((k.pcbs p).fds (as_uint fd)).operations_pointer buf nbytes k
  ]

  -- `operations_pointer[CLOSE](fd)`.
  unfoldable pub dispatch_close : Ops → Kernel → Result
  dispatch_close null k = fault
  dispatch_close stdin_ops k = fault
  dispatch_close stdout_ops k = fault
  dispatch_close rtc_ops k = let (n, l) = rtc_close floats dev (log k) in ret n (set_log k l)
  dispatch_close dir_ops k = ret dir_close k
  dispatch_close files_ops k = ret fs_close k

  -- `close` of a descriptor of the PCB `p`, with 2 ≤ fd ≤ 7.
  unfoldable pub close_fd : (p i : ℕ) → Kernel → Result
  close_fd p i k =
      if ((k.pcbs p).fds i).flags == 1
      then (let k' = set_fd k p i (record ((k.pcbs p).fds i) { flags = 0; file_position = 0 }) in
          dispatch_close ((k.pcbs p).fds i).operations_pointer k')
      else ret (negsuc 0) k

  unfoldable pub close : (fd : ℤ) → Kernel → Result
  close (negsuc n) k = ret (negsuc 0) k
  close (pos i) k =
      if leb 2 i
      then (if leb i 7
          then elim (k.curr_proc k.curr_active_term) [ none ↦ fault | some p ↦ close_fd p i k ]
          else ret (negsuc 0) k)
      else ret (negsuc 0) k

  -- A case of the switch of `open`: the descriptor gets the table, the inode and the name.
  abbrev pub install : (p i : ℕ) → Ops → (inode : Addr) → (filename : Addr) → Kernel → Option Kernel
  install p i ops inode filename k = elim (strcpy (mem k) (fd_name p i) filename) [
    | none ↦ none
    | some m ↦ some (
        set_fd (set_mem k m) p i (record {
          operations_pointer = ops;
          inode = inode;
          file_position = 0;
          flags = ((k.pcbs p).fds i).flags;
        }))
  ]

  -- The switch; a type that has no case leaves the descriptor as it was.
  unfoldable pub open_type :
      (file_type inode_num : ℕ) → (p i : ℕ) → (filename : Addr) → Kernel → Option Kernel
  open_type file_type inode_num p i filename k =
      if file_type == 0
      then elim (install p i rtc_ops 0 filename k) [
        | none ↦ none
        | some k' ↦ some (set_log k' (rtc_open floats dev (log k')).1)
      ]
      else if file_type == 1
      then install p i dir_ops 0 filename k
      else if file_type == 2
      then install p i files_ops (get_inode fs inode_num) filename k
      else some k

  abbrev pub mark_used : (p i : ℕ) → Kernel → Kernel
  mark_used p i k = set_fd k p i (record ((k.pcbs p).fds i) { flags = 1 })

  -- `open` past its look-up, with interrupts off and `flags` what they were. A name of 32 bytes or more
  -- would go over the next descriptor.
  unfoldable pub open_found :
      (flags : Bool) → (file_type inode_num : ℕ) → (filename : Addr) → Kernel → Result
  open_found flags file_type inode_num filename k = elim (k.curr_proc k.curr_active_term) [
    | none ↦ fault
    | some p ↦ elim (free_fd 6 (k.pcbs p).fds 2) [
      | none ↦ ret (negsuc 0) (restore flags k)
      | some i ↦
          if ltb file_type 3 && not (fits 32 (mem k) filename)
          then overruns
          else elim (open_type file_type inode_num p i filename k) [
            | none ↦ wait
            | some k' ↦ ret (pos i) (restore flags (mark_used p i k'))
          ]
    ]
  ]

  unfoldable pub open_file : (filename : Addr) → Kernel → Result
  open_file filename k =
      if filename == 0 then ret (negsuc 0) (cli k) else elim (strlen (mem k) filename) [
        | none ↦ wait
        | some n ↦
            if n == 0
            then ret (negsuc 0) (cli k)
            else elim (read_dentry_by_name fs (mem k) filename temp) [
              | none ↦ wait
              | some (check, m) ↦
                  if is_minus_one check
                  then ret (negsuc 0) (set_mem (cli k) m)
                  else open_found k.irq (load32 m (temp + 32)) (load32 m (temp + 36)) filename
                      (set_mem (cli k) m)
            ]
      ]

  unfoldable pub getargs : (buf : Addr) → (nbytes : ℤ) → Kernel → Result
  getargs buf (negsuc n) k = ret (negsuc 0) (cli k)
  getargs buf (pos n) k =
      if buf == 0 then ret (negsuc 0) (cli k) else elim (k.curr_proc k.curr_active_term) [
        | none ↦ fault
        | some p ↦ ret (pos 0) (set_mem k (strncpy (mem k) buf (args_addr p) n))
      ]

-- `vidmap`: the check is about where the pointer is kept, and the address of the screen goes there.
unfoldable pub vidmap : (screen_start : Addr) → Kernel → Result
vidmap screen_start k =
    if ltb screen_start 0x0800_0000 || ltb 0x0840_0000 screen_start
    then ret (negsuc 0) (cli k)
    else ret (pos 0) (set_mem k (store32 (mem k) screen_start 0xb8000))

-- `get_next_running_term_proc`.
unfoldable pub next_term : ℕ → ℕ
next_term t = if t == 0 then 1 else if t == 1 then 2 else if t == 2 then 0 else 0xff
