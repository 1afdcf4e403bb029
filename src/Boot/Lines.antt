-- ===== src/Boot/Lines.antt =====
-- Which interrupt lines are open once `entry` has started the devices.
use gyarad_os.Base.{
  ℕ, ◌+◌, ◌-◌, ◌%◌, ◌^◌, ◌≡◌, ◌≢◌, ◌⊎◌, inl, inr, refl, ◌∙◌, true, false, ◌||◌, Bool-cases, some,
  List, [], ◌∷◌, codes, arith, ◌==◌, bit_and, bit_or,
}
use gyarad_os.Machine.Bus.{Log, Device, got, outb, inb, outbs}
use gyarad_os.Screen.{Screen, putc, puts, put_char, new_line, update_cursor, update}
use gyarad_os.Drivers.Speaker.Gate.{IsLatch}
use gyarad_os.Drivers.Rtc.{Floats, rtc_init, rtc_set_frequency, out_of_range, not_power, rate_bits}
use gyarad_os.Base.Int.{pos}
use gyarad_os.Drivers.Pic.{i8259_init, enable_irq, is_slave, irq_bit, not32, and_port}
use gyarad_os.Kernel.State.{Kernel, Env, log, set_log, set_screen}
use gyarad_os.Kernel.Switch.{pit_init}
use gyarad_os.Kernel.Interrupts.Faults.{plain, exception-prints}
use gyarad_os.Boot.Entry.{Image, announced, args_of, start_devices}

module _ (dev : Device) (p : ℕ) (latch : IsLatch dev p) (mask : (p ≡ 0x21) ⊎ (p ≡ 0xa1)) where
  outb-keeps : (v port : ℕ) (l : Log) → port % 0x1_0000 ≢ p → dev (outb v port l) p ≡ dev l p
  unfolding outb
  outb-keeps v port l ne = latch.elsewhere _ _ l ne

  inb-keeps : (port : ℕ) (l : Log) → dev (inb dev port l).1 p ≡ dev l p
  unfolding inb
  inb-keeps port l = latch.read _ _ l

  -- Writes to other ports.
  abbrev Others : List (ℕ × ℕ) → Type 0
  Others [] = Unit
  Others ((v, port) ∷ r) = (port % 0x1_0000 ≢ p) × Others r

  outbs-keeps : (ws : List (ℕ × ℕ)) (l : Log) → Others ws → dev (outbs ws l) p ≡ dev l p
  unfolding outbs
  outbs-keeps [] l h = refl
  outbs-keeps ((v, port) ∷ r) l h = outbs-keeps r (outb v port l) h.1 ∙ outb-keeps v port l h.0

  update_cursor-keeps :
      (row col : ℕ) (s : Screen) → dev (update_cursor row col s).log p ≡ dev s.log p
  unfolding update_cursor
  update_cursor-keeps row col s =
      let index : 0x3d4 ≢ p = λ e. omega (arith, mask) in
      let data_port : 0x3d5 ≢ p = λ e. omega (arith, mask) in
      outbs-keeps _ s.log (index, (data_port, (index, (data_port, tt))))

  new_line-keeps : (t : ℕ) (s : Screen) → dev (new_line t s).log p ≡ dev s.log p
  unfolding new_line
  new_line-keeps t s = elim (Bool-cases (s.y t == 24)) [
    | inl e ↦ rw e (update_cursor-keeps _ _ _)
    | inr e ↦ rw e (update_cursor-keeps _ _ _)
  ]

  put_char-keeps : (t c : ℕ) (s : Screen) → dev (put_char t c s).log p ≡ dev s.log p
  unfolding put_char
  put_char-keeps t c s = elim (Bool-cases (update s.x t ((s.x t + 1) % 2 ^ 32) t == 80)) [
    | inl e ↦ rw e (new_line-keeps t _)
    | inr e ↦ rw e refl
  ]

  putc-keeps : (t c : ℕ) (s : Screen) → dev (putc t c s).log p ≡ dev s.log p
  unfolding putc
  putc-keeps t c s = elim (Bool-cases (c == 10 || c == 13)) [
    | inl e ↦ rw e (update_cursor-keeps _ _ _ ∙ new_line-keeps t s)
    | inr e ↦ rw e (update_cursor-keeps _ _ _ ∙ put_char-keeps t c s)
  ]

  puts-keeps : (t : ℕ) (text : List ℕ) (s : Screen) → dev (puts t text s).log p ≡ dev s.log p
  unfolding puts
  puts-keeps t [] s = refl
  puts-keeps t (c ∷ r) s = puts-keeps t r (putc t c s) ∙ putc-keeps t c s

  rtc_init-keeps : (fl : Floats) (l : Log) → dev (rtc_init fl dev l) p ≡ dev l p
  unfolding rtc_init rtc_set_frequency out_of_range not_power
  rtc_init-keeps fl l =
      let index : 0x70 ≢ p = λ e. omega (arith, mask) in
      let data_port : 0x71 ≢ p = λ e. omega (arith, mask) in
      let l1 = outb 0x8b 0x70 l in
      let l2 = (inb dev 0x71 l1).1 in
      let l3 = outb 0x8b 0x70 l2 in
      let v = bit_or (inb dev 0x71 l1).0 0x40 in
      let l4 = outb v 0x71 l3 in
      let l5 = outb 0x8a 0x70 l4 in
      let l6 = (inb dev 0x71 l5).1 in
      let l7 = outb 0x8a 0x70 l6 in
      let w = bit_or (bit_and (inb dev 0x71 l5).0 0xf0) (rate_bits fl (pos 2)) in
      let first : dev l4 p ≡ dev l p =
        ((outb-keeps v 0x71 l3 data_port ∙ outb-keeps 0x8b 0x70 l2 index) ∙ inb-keeps 0x71 l1)
        ∙ outb-keeps 0x8b 0x70 l index in
      let last : dev (outb w 0x71 l7) p ≡ dev l4 p =
        ((outb-keeps w 0x71 l7 data_port ∙ outb-keeps 0x8a 0x70 l6 index) ∙ inb-keeps 0x71 l5)
        ∙ outb-keeps 0x8a 0x70 l4 index in
      last ∙ first

  pit_init-keeps : (l : Log) → dev (pit_init l) p ≡ dev l p
  unfolding pit_init
  pit_init-keeps l =
      let count : 0x40 ≢ p = λ e. omega (arith, mask) in
      let control : 0x43 ≢ p = λ e. omega (arith, mask) in
      outbs-keeps _ l (control, (count, (count, tt)))

-- What the two mask ports hold.
pub record Masks (dev : Device) (l : Log) (a b : ℕ) : Type 0 where
  pub master : dev l 0x21 ≡ a
  pub slave : dev l 0xa1 ≡ b

module _ (dev : Device) (m : IsLatch dev 0x21) (s : IsLatch dev 0xa1) where
  -- A part that leaves both ports alone.
  same-Masks :
      (l l' : Log) (a b : ℕ)
      → ((p : ℕ) → IsLatch dev p → (p ≡ 0x21) ⊎ (p ≡ 0xa1) → dev l' p ≡ dev l p)
      → Masks dev l a b
      → Masks dev l' a b
  same-Masks l l' a b keep is = record {
    master = keep 0x21 m (inl refl) ∙ is.master;
    slave = keep 0xa1 s (inr refl) ∙ is.slave;
  }

  i8259_init-Masks : (l : Log) → Masks dev (i8259_init l) 0xff 0xff
  unfolding i8259_init outbs outb
  i8259_init-Masks l = record {
    master = m.elsewhere 0xff 0xa1 _ (λ e. omega (arith, e)) ∙ m.written 0xff _;
    slave = s.written 0xff _;
  }

  -- A line of the master, and one of the slave.
  master-Masks :
      (irq : ℕ) (l : Log) (a b : ℕ)
      → is_slave irq ≡ false
      → Masks dev l a b
      → Masks dev (enable_irq dev irq l) (bit_and (a % 0x100) (not32 (irq_bit irq)) % 0x100) b
  unfolding enable_irq and_port inb outb
  master-Masks irq l a b e is =
      let a' = bit_and (dev l 0x21 % 0x100) (not32 (irq_bit irq)) % 0x100 in
      let read = got (dev l 0x21 % 0x100) 0x21 ∷ l in
      rw (e, is.master)
        (record {
          master = m.written _ _;
          slave = (s.elsewhere _ 0x21 _ (λ f. omega (arith, f)) ∙ s.read _ 0x21 l) ∙ is.slave;
        })

  slave-Masks :
      (irq : ℕ) (l : Log) (a b : ℕ)
      → is_slave irq ≡ true
      → Masks dev l a b
      → Masks dev (enable_irq dev irq l) a (bit_and (b % 0x100) (not32 (irq_bit (irq - 8))) % 0x100)
  unfolding enable_irq and_port inb outb
  slave-Masks irq l a b e is =
      rw (e, is.slave)
        (record {
          master = (m.elsewhere _ 0xa1 _ (λ f. omega (arith, f)) ∙ m.read _ 0xa1 l) ∙ is.master;
          slave = s.written _ _;
        })

  announced-Masks :
      (image : Image) (env : Env) (format : List ℕ) (part : Log → Log) (k : Kernel) (a b a' b' : ℕ)
      → plain format ≡ true
      → Masks dev (log k) a b
      → ((l : Log) → Masks dev l a b → Masks dev (part l) a' b')
      → (k' : Kernel) × (announced image format part (some k) ≡ some k') × Masks dev (log k') a' b'
  announced-Masks image env format part k a b a' b' pf is step =
      let t = k.console.active_terminal in
      let k1 = set_screen k (puts t format k.console.screen) in
      let e1 = exception-prints env image.conv_buf (args_of [] image.stack) k format pf in
      let is1 =
        same-Masks (log k) (log k1) a b
          (λ p latch at. puts-keeps dev p latch at t format k.console.screen) is in
      let k2 = set_log k1 (part (log k1)) in
      let ok = codes "[ OK ]\n" in
      let e2 = exception-prints env image.conv_buf (args_of [] image.stack) k2 ok refl in
      let is2 = step (log k1) is1 in
      let k3 = set_screen k2 (puts t ok k2.console.screen) in
      (
        k3,
        rw (announced, e1) e2,
        same-Masks (log k2) (log k3) a' b'
            (λ p latch at. puts-keeps dev p latch at t ok k2.console.screen) is2,
      )

module _ (image : Image) (env : Env) (m : IsLatch env.dev 0x21) (s : IsLatch env.dev 0xa1) where
  -- When `entry` has started the devices, the lines that are open are those of the timer, the
  -- keyboard and the slave (0 to 2) on the first controller, and those of the clock and the mouse (8
  -- and 12) on the second, whatever was open before, on ports that keep what is written to them;
  -- and the start comes to its end.
  pub start_devices-Masks :
      (k : Kernel)
      → (k' : Kernel) × (start_devices image env k ≡ some k') × Masks env.dev (log k') 0xf8 0xee
  unfolding start_devices is_slave not32 irq_bit
  start_devices-Masks k =
      let dev = env.dev in
      let k0 = set_log k (i8259_init (log k)) in
      let (k1, e1, i1) =
        announced-Masks dev m s image env (codes "Initalizing RTC               ... ")
          (rtc_init env.floats dev) k0 0xff 0xff 0xff 0xff refl (i8259_init-Masks dev m s (log k))
          (λ l.
            same-Masks dev m s l (rtc_init env.floats dev l) 0xff 0xff
              (λ p latch at. rtc_init-keeps dev p latch at env.floats l)) in
      let (k2, e2, i2) =
        announced-Masks dev m s image env (codes "Initalizing PIT               ... ") pit_init k1
          0xff 0xff 0xff 0xff refl i1
          (λ l.
            same-Masks dev m s l (pit_init l) 0xff 0xff
              (λ p latch at. pit_init-keeps dev p latch at l)) in
      let (k3, e3, i3) =
        announced-Masks dev m s image env (codes "Enabling Slave PIC interrupts ... ")
          (enable_irq dev 2) k2 0xff 0xff 0xfb 0xff refl i2
          (λ l. master-Masks dev m s 2 l 0xff 0xff refl) in
      let (k4, e4, i4) =
        announced-Masks dev m s image env (codes "Enabling keyboard interrupts  ... ")
          (enable_irq dev 1) k3 0xfb 0xff 0xf9 0xff refl i3
          (λ l. master-Masks dev m s 1 l 0xfb 0xff refl) in
      let (k5, e5, i5) =
        announced-Masks dev m s image env (codes "Enabling mouse interrupts     ... ")
          (enable_irq dev 12) k4 0xf9 0xff 0xf9 0xef refl i4
          (λ l. slave-Masks dev m s 12 l 0xf9 0xff refl) in
      let (k6, e6, i6) =
        announced-Masks dev m s image env (codes "Enabling RTC interrupts       ... ")
          (enable_irq dev 8) k5 0xf9 0xef 0xf9 0xee refl i5
          (λ l. slave-Masks dev m s 8 l 0xf9 0xef refl) in
      let (k7, e7, i7) =
        announced-Masks dev m s image env (codes "Enabling PIT interrupts       ... ")
          (enable_irq dev 0) k6 0xf9 0xee 0xf8 0xee refl i6
          (λ l. master-Masks dev m s 0 l 0xf9 0xee refl) in
      (k7, rw (start_devices, e1, e2, e3, e4, e5, e6) e7, i7)
