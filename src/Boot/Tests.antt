-- ===== src/Boot/Tests.antt =====
-- A boot loader that passes two modules, and a machine whose ports keep what is written to them.
use gyarad_os.Base.{ℕ, ◌+◌, ◌≡◌, refl, none, some, arith, [], ◌∷◌, ◌==◌, if◌then◌else◌}
use gyarad_os.Machine.Memory.{Mem, load32, store32}
use gyarad_os.Machine.Bus.{Device, out, got}
use gyarad_os.Drivers.Speaker.Gate.{IsLatch}
use gyarad_os.Kernel.State.{Kernel, Env, log}
use gyarad_os.Base.Int.{pos}
use gyarad_os.Paging.{init_paging}
use gyarad_os.Boot.Entry.{Booted, stops, hangs, runs, Image, Start, start_devices, entry}
use gyarad_os.Boot.First.{Begins, entry-Begins}
use gyarad_os.Kernel.Tests.Data.{machine, shell_only}
use gyarad_os.Boot.Lines.{Masks, start_devices-Masks}
use gyarad_os.Boot.{Segment, ldt_segment, tss_segment, find_fs, check_flag}

-- The information stands at 0x100, the modules at 0x200, and the name of the second at 8201.
abbrev loaded : Mem
loaded =
    store32
      (store32 (store32 (store32 (store32 (λ a. 0) 0x100 8) (0x100 + 20) 2) (0x100 + 24) 0x200)
        0x210 0x41_0000)
      0x218 8201

found : find_fs loaded 0x100 ≡ 0x41_0000
unfolding find_fs gyarad_os.Boot.scan_modules load32 store32
found = refl

abbrev latch : Device
latch [] port = 0
latch (out v p ∷ l) port = if p == port then v else latch l port
latch (got v p ∷ l) port = latch l port

latch-IsLatch : (port : ℕ) → IsLatch latch port
latch-IsLatch port = record {
  written = λ v l. ground arith;
  elsewhere = λ v other l ne. ground (arith, ne);
  read = λ v other l. refl;
}

abbrev latched : Env
latched = record machine { dev = latch }

abbrev image : Image
image = record {
  conv_buf = 0x7f_0000;
  stack = λ i. 0;
  ldt = 0x40_1230;
  ldt_size = 0x40;
  tss = 0x40_2000;
  tss_size = 104;
  locals = record {
    seg_lim_15_00 = 7;
    base_15_00 = 7;
    base_23_16 = 7;
    kind = 7;
    sys = 1;
    dpl = 3;
    present = 0;
    seg_lim_19_16 = 7;
    avail = 1;
    reserved = 1;
    opsize = 0;
    granularity = 1;
    base_31_24 = 7;
  };
  page_table = 0x403;
  d_buf = 0x8000;
  sb_cmd = 0;
  cmd_len = 0;
  esp = 0x7f_ff00;
  ebp = 0x7f_ff10;
}

start_devices-Masks_example :
    (k' : Kernel) × (start_devices image latched shell_only ≡ some k')
    × Masks latch (log k') 0xf8 0xee
start_devices-Masks_example =
    start_devices-Masks image latched (latch-IsLatch 0x21) (latch-IsLatch 0xa1) shell_only

-- A kernel before its first program.
abbrev before : Kernel
before = record shell_only {
  curr_proc = λ t. none;
  curr_proc_id_mask = 0;
  first_program_run = 0;
  second_term_start = 0;
  third_term_start = 0;
}

abbrev start : Start
start = record {
  kernel = before;
  mouse = record { mouse_x = 40; mouse_y = 12; prev_char = 32; flags = 0; mouse_byte_1 = 0 };
  sound = record { channel = 0; mode = 0; status = 0; file = pos 0; fd_b_current = 0x8000 };
  lfsr = 0xace1;
  ldt_desc = image.locals;
  tss_desc = image.locals;
}

-- A machine with a sound card that answers.
abbrev with_card : Device
with_card l port =
    if port == 0x22e
    then 0x80
    else if port == 0x22a
    then 0xaa
    else if port == 0x22c
    then 0
    else latch l port

abbrev answering : Env
answering = record latched { dev = with_card }

abbrev how : Booted → ℕ
how (stops k) = 0
how hangs = 1
how (runs env b r) = 2

entry_runs : how (entry image answering 10 0x2bad_b002 0x100 start) ≡ 2
unfolding entry gyarad_os.Boot.Entry.report_memory load32 gyarad_os.Screen.clear
    gyarad_os.Screen.clear_cells gyarad_os.Boot.Entry.report_elf start_devices
    gyarad_os.Kernel.Interrupts.print gyarad_os.Screen.Printf.printf
    gyarad_os.Screen.Printf.printf_from gyarad_os.Boot.Entry.start_rest
    gyarad_os.Kernel.Sound.init_sound_blaster gyarad_os.Kernel.Sound.sound_blaster_reset
    gyarad_os.Kernel.Sound.poll gyarad_os.Machine.Bus.inb
    gyarad_os.Kernel.Sound.sound_blaster_play_test gyarad_os.Kernel.Sound.then_do
    gyarad_os.Kernel.Sound.on_bus gyarad_os.Kernel.Sound.sound_blaster_set_sample_rate
    gyarad_os.Kernel.Sound.dsp_write gyarad_os.Kernel.Sound.dsp_write2
    gyarad_os.Kernel.Sound.sound_blaster_play gyarad_os.Boot.Entry.start_first
entry_runs = refl

entry-Begins_example :
    Begins image
      (init_paging 0x403 before.paging)
      (entry image answering 10 0x2bad_b002 0x100 start)
entry-Begins_example =
    entry-Begins image answering 10 0x2bad_b002 0x100 start
      (record { mask = refl; idle = λ t. refl; term = refl; paging = refl })
