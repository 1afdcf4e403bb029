-- ===== src/Kernel/Sound.antt =====
-- drivers/sound_blaster_16.c. Its ports stand at 0x220: 0x226 resets, 0x22a is read, 0x22c written,
-- and 0x22e and 0x22f acknowledge. A wait for the card reads a port at most `patience` times, and
-- `none` is a wait that goes on.
pub mod Status
pub mod Card
mod Tests
use gyarad_os.Base.{
  ℕ, zero, suc, ◌+◌, ◌-◌, ◌/◌, ◌%◌, ◌^◌, Bool, true, false, ◌||◌, not, Option, none, some, List,
  codes, ltb, ◌==◌, if◌then◌else◌, bit_or,
}
use gyarad_os.Base.Int.{ℤ, pos, negsuc}
use gyarad_os.Machine.Memory.{Addr, Mem, poke}
use gyarad_os.Machine.Bus.{Log, Device, outb, inb}
use gyarad_os.Drivers.Pic.{send_eoi}
use gyarad_os.Drivers.Dma.{init_dma}
use gyarad_os.Screen.{Screen, puts, putc}
use gyarad_os.Screen.Pages.{rand}
use gyarad_os.Kernel.{read, close}
use gyarad_os.Kernel.State.{
  Kernel, Env, Result, ret, enters, resumes, wait, overruns, fault, mem, set_mem, log, set_log,
  set_screen, cli, restore, as_uint,
}

-- The driver's globals. `status` is 0 for STOPPED, 1 for PLAYING and 2 for PAUSED; `mode` and
-- `status` are `int8_t` that stay small.
pub record Sound : Type 0 where
  pub channel : ℕ
  pub mode : ℕ
  pub status : ℕ
  pub file : ℤ
  pub fd_b_current : Addr

-- `mode & SB_STATUS_8BIT` and `mode & SB_STATUS_MONO`.
abbrev pub is_8bit : Sound → Bool
is_8bit sb = sb.mode / 2 % 2 == 1

abbrev pub is_mono : Sound → Bool
is_mono sb = sb.mode / 8 % 2 == 1

-- A loop that reads a port until the byte passes the test.
unfoldable pub poll : (patience : ℕ) → Device → (port : ℕ) → (ready : ℕ → Bool) → Log → Option Log
poll zero dev port ready l = none
poll (suc n) dev port ready l =
    let (v, l') = inb dev port l in
    let again = poll n dev port ready l' in if ready v then some l' else again

module _ (patience : ℕ) (dev : Device) where
  unfoldable pub dsp_write : (data_byte : ℕ) → Log → Option Log
  dsp_write data_byte l = elim (poll patience dev 0x22c (λ v. not (v / 0x80 % 2 == 1)) l) [
    | none ↦ none
    | some l' ↦ some (outb data_byte 0x22c l')
  ]

  unfoldable pub dsp_read : Log → Option (ℕ × Log)
  dsp_read l = elim (poll patience dev 0x22c (λ v. v / 0x80 % 2 == 1) l) [
    | none ↦ none
    | some l' ↦ some (inb dev 0x22a l')
  ]

  -- Two bytes for the card, one after the other.
  unfoldable pub dsp_write2 : (a b : ℕ) → Log → Option Log
  dsp_write2 a b l = elim (dsp_write a l) [ none ↦ none | some l' ↦ dsp_write b l' ]

  unfoldable pub sound_blaster_reset : (terminal : ℕ) → Screen → Option Screen
  sound_blaster_reset terminal s =
      let s1 = record s { log = outb 0 0x226 (outb 1 0x226 s.log) } in
      let s2 = putc terminal 10 (puts terminal (codes "WAITING FOR SB CLEAR") s1) in
      elim (poll patience dev 0x22e (λ v. v / 0x80 % 2 == 1) s2.log) [
        | none ↦ none
        | some l ↦
            let s3 =
              putc terminal 10
                (puts terminal (codes "WAITING FOR SB READ") (record s2 { log = l })) in
            elim (poll patience dev 0x22a (λ v. v == 0xaa) s3.log) [
              | none ↦ none
              | some l' ↦ some (record s3 { log = l' })
            ]
      ]

  unfoldable pub init_sound_blaster : (terminal : ℕ) → Sound → Screen → Option (Sound × Screen)
  init_sound_blaster terminal sb s = elim (sound_blaster_reset terminal s) [
    | none ↦ none
    | some s' ↦ some (record sb { channel = 1; mode = 0; status = 0 }, s')
  ]

  -- `cmd` is what the local that is not initialised holds.
  unfoldable pub sound_blaster_play : (cmd size : ℕ) → Sound → Log → Option Log
  sound_blaster_play cmd size sb l =
      let s_block = size % 2 ^ 16 in
      let cmd1 = if is_8bit sb then bit_or cmd 0xc0 else bit_or cmd 0xb0 in
      let md = if is_mono sb then 0 else 0x10 in
      let last = (s_block + (2 ^ 16 - 1)) % 2 ^ 16 in
      elim (dsp_write2 (bit_or cmd1 0x06) md l) [
        | none ↦ none
        | some l' ↦ dsp_write2 (last % 2 ^ 8) (last / 2 ^ 8) l'
      ]

  -- The write of a command that has a form for 8 bits and one for 16.
  abbrev pub command : (byte8 byte16 : ℕ) → Sound → Log → Option (ℤ × Log)
  command byte8 byte16 sb l = elim (dsp_write (if is_8bit sb then byte8 else byte16) l) [
    | none ↦ none
    | some l' ↦ some (pos 0, l')
  ]

  unfoldable pub sound_blaster_pause : Sound → Log → Option (ℤ × Log)
  sound_blaster_pause sb l =
      if not (sb.status == 1) then some (negsuc 0, l) else command 0xd0 0xd5 sb l

  unfoldable pub sound_blaster_resume : Sound → Log → Option (ℤ × Log)
  sound_blaster_resume sb l =
      if not (sb.status == 2) then some (negsuc 0, l) else command 0xd4 0xd6 sb l

  unfoldable pub sound_blaster_stop : Sound → Log → Option (ℤ × Log)
  sound_blaster_stop sb l =
      if not (sb.status == 1) || not (sb.status == 2)
      then some (negsuc 0, l)
      else command 0xd0 0xd5 sb l

  unfoldable pub sound_blaster_stop_op : Sound → Log → Option (ℤ × Log)
  sound_blaster_stop_op sb l = command 0xda 0xd9 sb l

  unfoldable pub sound_blaster_set_sample_rate : (rate : ℕ) → Log → Option (ℤ × Log)
  sound_blaster_set_sample_rate rate l = elim (dsp_write 0x41 l) [
    | none ↦ none
    | some l' ↦ elim (dsp_write2 (rate / 2 ^ 8 % 2 ^ 8) (rate % 2 ^ 8) l') [
      | none ↦ none
      | some l'' ↦ some (pos 0, l'')
    ]
  ]

-- The loop of `sound_blaster_clear_mem`, with `k` bytes left.
unfoldable pub clear_bytes : ℕ → Mem → (d_buf : Addr) → (i : ℕ) → Mem
clear_bytes zero m d_buf i = m
clear_bytes (suc k) m d_buf i = clear_bytes k (poke m (d_buf + i) 0) d_buf (i + 1)

-- The loop of `sound_blaster_play_test`: noise, from `lfsr` on.
unfoldable pub noise : ℕ → Mem → (lfsr : ℕ) → (d_buf : Addr) → (i : ℕ) → ℕ × Mem
noise zero m lfsr d_buf i = (lfsr, m)
noise (suc k) m lfsr d_buf i =
    let r = rand lfsr in noise k (poke m (d_buf + i) ((r % 10824 + 1) % 2 ^ 8)) r d_buf (i + 1)

-- How a call of the driver ends: it comes back, or a call inside it ends otherwise.
pub data Played : Type 0 where
  done : Sound → Kernel → Played
  ends : Result → Played

-- A system call, and what follows it when it comes back.
unfoldable pub then_call : Result → (ℤ → Kernel → Played) → Played
then_call (ret n k) f = f n k
then_call (enters e k) f = ends (enters e k)
then_call (resumes s k) f = ends (resumes s k)
then_call wait f = ends wait
then_call overruns f = ends overruns
then_call fault f = ends fault

-- A part of a call that only uses the bus.
unfoldable pub on_bus : Sound → Kernel → Option Log → Played
on_bus sb k none = ends wait
on_bus sb k (some l) = done sb (set_log k l)

abbrev pub log_of : Option (ℤ × Log) → Option Log
log_of none = none
log_of (some (n, l)) = some l

unfoldable pub then_do : Played → (Sound → Kernel → Played) → Played
then_do (done sb k) f = f sb k
then_do (ends r) f = ends r

-- The other half of the buffer.
abbrev pub swap_half : (d_buf : Addr) → Sound → Sound
swap_half d_buf sb = record sb {
  fd_b_current = if sb.fd_b_current == d_buf then d_buf + 0x8000 else d_buf;
}

module _ (env : Env) (patience : ℕ) (d_buf : Addr) (cmd : ℕ) where
  unfoldable pub sound_blaster_clear_mem : Sound → Kernel → Played
  sound_blaster_clear_mem sb k =
      then_call (close env sb.file (set_mem k (clear_bytes 0x1_0000 (mem k) d_buf 0)))
        (λ n k'. done (record sb { status = 0; fd_b_current = d_buf }) k')

  -- The result of `init_dma` is not looked at.
  unfoldable pub sound_blaster_play_test : (lfsr : ℕ) → Sound → Kernel → ℕ × Played
  sound_blaster_play_test lfsr sb k =
      let sb' = record sb { status = 1; mode = bit_or sb.mode 2; channel = 1 } in
      let (lfsr', m) = noise 0x1_0000 (mem k) lfsr d_buf 0 in
      (
        lfsr',
        then_do
            (on_bus sb' k (log_of (sound_blaster_set_sample_rate patience env.dev 22050 (log k))))
            (λ sb1 k1.
              (let k2 =
                  set_log (set_mem k1 m) (init_dma sb1.channel d_buf 0x1_0000 0x06 (log k1)).1 in
                on_bus sb1 k2
                  (sound_blaster_play patience env.dev cmd (0x8000 % 2 ^ 16) sb1 (log k2)))),
      )

  -- The branch of the handler for the bytes that were read.
  unfoldable pub play_block : (b_read : ℕ) → Sound → Kernel → Played
  play_block b_read sb k =
      let stopped =
        then_do (on_bus sb k (log_of (sound_blaster_stop_op patience env.dev sb (log k))))
          sound_blaster_clear_mem in
      then_do (if ltb b_read 0x8000 then stopped else done sb k) (λ sb1 k1.
        on_bus (swap_half d_buf sb1) k1 (
          sound_blaster_play patience env.dev cmd (b_read % 2 ^ 16) (swap_half d_buf sb1) (log k1)))

  unfoldable pub play_next : Sound → Kernel → Played
  play_next sb k = then_call (read env sb.file sb.fd_b_current (pos 0x8000) k) (λ n k'.
      (if as_uint n == 0
        then then_do (sound_blaster_clear_mem sb k')
            (λ sb1 k1. on_bus sb1 k1 (log_of (sound_blaster_stop patience env.dev sb1 (log k1))))
        else play_block (as_uint n) sb k'))

  -- The end of the handler: the card and the controller are told, and interrupts are as before.
  abbrev pub acknowledge_card : (flags : Bool) → Sound → Kernel → Played
  acknowledge_card flags sb k =
      let l1 = (inb env.dev 0x22e (log k)).1 in
      let l2 = (inb env.dev 0x22f l1).1 in done sb (restore flags (set_log k (send_eoi 5 l2)))

  unfoldable pub sound_balster_irq_handler : Sound → Kernel → Played
  sound_balster_irq_handler sb k =
      then_do (if not (sb.status == 0) then play_next sb (cli k) else done sb (cli k))
        (acknowledge_card k.irq)
