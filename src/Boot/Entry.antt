-- ===== src/Boot/Entry.antt =====
-- `entry` of boot/kernel.c, from the boot loader to the first program.
use gyarad_os.Base.{
  ℕ, suc, zero, ◌+◌, ◌%◌, ◌^◌, true, ◌&&◌, not, Option, none, some, List, [], ◌∷◌, codes, ◌==◌,
  if◌then◌else◌,
}
use gyarad_os.Machine.Memory.{Addr, load32}
use gyarad_os.Machine.Bus.{Log}
use gyarad_os.Fs.{fs_init}
use gyarad_os.Paging.{init_paging}
use gyarad_os.Screen.{clear, clear_screen}
use gyarad_os.Drivers.Pic.{i8259_init, enable_irq}
use gyarad_os.Drivers.Rtc.{rtc_init}
use gyarad_os.Drivers.Mouse.{Mouse, mouse_init}
use gyarad_os.Kernel.State.{Kernel, Env, Result, mem, log, set_log, set_screen}
use gyarad_os.Kernel.Interrupts.{print}
use gyarad_os.Kernel.Process.{execute}
use gyarad_os.Kernel.Switch.{pit_init}
use gyarad_os.Kernel.Sound.{Sound, Played, done, ends, init_sound_blaster, sound_blaster_play_test}
use gyarad_os.Boot.{Segment, check_flag, find_fs, walk_mmap, ldt_segment, tss_segment}

-- What stands beside the kernel's state at its start.
pub record Start : Type 0 where
  pub kernel : Kernel
  pub mouse : Mouse
  pub sound : Sound
  -- `lfsr` of lib.c
  pub lfsr : ℕ
  -- `ldt_desc_ptr` and `tss_desc_ptr`
  pub ldt_desc : Segment
  pub tss_desc : Segment

-- How `entry` ends: it returns to the assembly, which spins; it waits for a device, or in a string
-- or a memory map that never ends; or the first program's `execute` ends so, with the drivers' states
-- as they are in the second place.
pub data Booted : Type 0 where
  stops : Kernel → Booted
  hangs : Booted
  runs : Env → Start → Result → Booted

-- Addresses and values that the linker and the stack give: `page_table` is that of the first page
-- table, and the locals that are not initialised hold what they hold.
pub record Image : Type 0 where
  pub conv_buf : Addr
  pub stack : ℕ → ℕ
  pub ldt : Addr
  pub ldt_size : ℕ
  pub tss : Addr
  pub tss_size : ℕ
  pub locals : Segment
  pub page_table : ℕ
  pub d_buf : Addr
  pub sb_cmd : ℕ
  pub cmd_len : ℕ
  pub esp : ℕ
  pub ebp : ℕ

-- The arguments of a `printf`, and the stack above them.
abbrev pub args_of : List ℕ → (ℕ → ℕ) → ℕ → ℕ
args_of [] stack i = stack i
args_of (a ∷ r) stack zero = a
args_of (a ∷ r) stack (suc i) = args_of r stack i

module _ (image : Image) where
  abbrev pub say : (format : List ℕ) → (words : List ℕ) → Kernel → Option Kernel
  say format words k = print image.conv_buf (args_of words image.stack) format k

  -- A part of `entry` under a bit of the flags.
  abbrev pub under_flag :
      (mbi : Addr) → (bit : ℕ) → (Kernel → Option Kernel) → Option Kernel → Option Kernel
  under_flag mbi bit part none = none
  under_flag mbi bit part (some k) =
      let changed = part k in if check_flag (load32 (mem k) mbi) bit then changed else some k

  abbrev pub field : (mbi : Addr) → (offset : ℕ) → Kernel → ℕ
  field mbi offset k = load32 (mem k) (mbi + offset)

  -- The lines about the memory, the boot device and the command line.
  unfoldable pub report_memory : (mbi : Addr) → Kernel → Option Kernel
  report_memory mbi k =
      let memory =
        under_flag mbi 0
          (λ k.
            say (codes "mem_lower = %uKB, mem_upper = %uKB\n") (field mbi 4 k ∷ field mbi 8 k ∷ [])
              k)
          (some k) in
      let device =
        under_flag mbi 1 (λ k. say (codes "boot_device = 0x%#x\n") (field mbi 12 k ∷ []) k)
          memory in
      under_flag mbi 2 (λ k. say (codes "cmdline = %s\n") (field mbi 16 k ∷ []) k) device

  -- The loop over the memory map, with one turn of the address space as its fuel.
  abbrev pub walked : (mbi : Addr) → Option Kernel → Option Kernel
  walked mbi none = none
  walked mbi (some k) =
      elim (walk_mmap (2 ^ 32) (mem k) (field mbi 48 k)
        ((field mbi 48 k + field mbi 44 k) % 2 ^ 32)) [ none ↦ none | some end ↦ some k ]

  -- The lines about the ELF sections and the memory map, and the walk over the map.
  unfoldable pub report_elf : (mbi : Addr) → Kernel → Option Kernel
  report_elf mbi k =
      let sections =
        under_flag mbi 5
          (λ k.
            say (codes "elf_sec: num = %u, size = 0x%#x, addr = 0x%#x, shndx = 0x%#x\n")
              (field mbi 28 k ∷ field mbi 32 k ∷ field mbi 36 k ∷ field mbi 40 k ∷ []) k)
          (some k) in
      under_flag mbi 6
        (λ k. walked mbi (
          say (codes "mmap_addr = 0x%#x, mmap_length = 0x%x\n")
            (field mbi 48 k ∷ field mbi 44 k ∷ []) k))
        sections

  -- A step between its line and its "[ OK ]".
  abbrev pub announced : (format : List ℕ) → (Log → Log) → Option Kernel → Option Kernel
  announced format part none = none
  announced format part (some k) = elim (say format [] k) [
    | none ↦ none
    | some k' ↦ say (codes "[ OK ]\n") [] (set_log k' (part (log k')))
  ]

  -- The devices, up to `sti`.
  unfoldable pub start_devices : Env → Kernel → Option Kernel
  start_devices env k =
      let rtc =
        announced (codes "Initalizing RTC               ... ") (rtc_init env.floats env.dev)
          (some (set_log k (i8259_init (log k)))) in
      let pit = announced (codes "Initalizing PIT               ... ") pit_init rtc in
      let slave =
        announced (codes "Enabling Slave PIC interrupts ... ") (enable_irq env.dev 2) pit in
      let keyboard =
        announced (codes "Enabling keyboard interrupts  ... ") (enable_irq env.dev 1) slave in
      let mouse =
        announced (codes "Enabling mouse interrupts     ... ") (enable_irq env.dev 12) keyboard in
      let clock =
        announced (codes "Enabling RTC interrupts       ... ") (enable_irq env.dev 8) mouse in
      announced (codes "Enabling PIT interrupts       ... ") (enable_irq env.dev 0) clock

  -- The segments of the LDT and the TSS, and `tss.esp0`.
  unfoldable pub start_segments : Start → Start
  start_segments b = record b {
    ldt_desc = ldt_segment image.ldt image.ldt_size image.locals;
    tss_desc = tss_segment image.tss image.tss_size image.locals;
    kernel = record (b.kernel) { esp0 = 0x80_0000 };
  }

  -- The file system and the first program.
  unfoldable pub start_first : Env → (fs_start : ℕ) → Start → Booted
  start_first env fs_start b =
      let k = b.kernel in
      let env' = record env { fs = fs_init (mem k) fs_start } in
      runs env' b (
        execute env' image.cmd_len image.esp image.ebp env.shell
          (set_screen k (clear_screen k.console.screen)))

  abbrev pub after_test : Env → (fs_start : ℕ) → Start → ℕ × Played → Booted
  after_test env fs_start b (lfsr, done sb k) =
      start_first env fs_start (record b { sound = sb; lfsr = lfsr; kernel = k })
  after_test env fs_start b (lfsr, ends r) = hangs

  -- From `sti` on; `patience` is for the waits of the sound card.
  unfoldable pub start_rest : Env → (patience fs_start : ℕ) → Start → Kernel → Booted
  start_rest env patience fs_start b k =
      let k1 = record k { irq = true; paging = init_paging image.page_table k.paging } in
      let (mouse, l) = mouse_init env.dev b.mouse (log k1) in
      let k2 = set_log k1 (enable_irq env.dev 5 l) in
      elim (init_sound_blaster patience env.dev k2.console.active_terminal b.sound
        k2.console.screen) [
          | none ↦ hangs
          | some (sb, s) ↦
              after_test env fs_start (record b { mouse = mouse })
                (sound_blaster_play_test env patience image.d_buf image.sb_cmd b.lfsr sb
                  (set_screen k2 s))
        ]

  unfoldable pub entry : Env → (patience magic addr : ℕ) → Start → Booted
  entry env patience magic addr b =
      let k = set_screen b.kernel (clear b.kernel.console.screen) in
      if not (magic == 0x2bad_b002)
      then elim (say (codes "Invalid magic number: 0x%#x\n") (magic ∷ []) k) [
        | none ↦ hangs
        | some k' ↦ stops k'
      ]
      else elim (report_memory addr k) [
        | none ↦ hangs
        | some k1 ↦
            let fs_start = find_fs (mem k1) addr in
            let flags = load32 (mem k1) addr in
            if check_flag flags 4 && check_flag flags 5
            then elim (say (codes "Both bits 4 and 5 are set.\n") [] k1) [
              | none ↦ hangs
              | some k' ↦ stops k'
            ]
            else elim (report_elf addr k1) [
              | none ↦ hangs
              | some k2 ↦
                  let b' = start_segments (record b { kernel = k2 }) in
                  elim (start_devices env b'.kernel) [
                    | none ↦ hangs
                    | some k3 ↦ start_rest env patience fs_start b' k3
                  ]
            ]
      ]
