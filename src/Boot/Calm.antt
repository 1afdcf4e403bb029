-- ===== src/Boot/Calm.antt =====
-- The parts of `entry` that only print and set the devices up.
use mathlib.Core.Path.{subst}
use gyarad_os.Base.{
  ℕ, ◌+◌, ◌%◌, ◌^◌, Option, none, some, List, [], ◌∷◌, codes, Bool-cases, Option-cases, inl, inr,
}
use gyarad_os.Machine.Memory.{Addr, load32}
use gyarad_os.Machine.Bus.{Log}
use gyarad_os.Screen.{Screen}
use gyarad_os.Screen.Printf.{printf}
use gyarad_os.Drivers.Pic.{i8259_init, enable_irq}
use gyarad_os.Drivers.Rtc.{rtc_init}
use gyarad_os.Kernel.State.{Kernel, Env, mem, log, set_log, set_screen}
use gyarad_os.Kernel.Interrupts.{print}
use gyarad_os.Kernel.Switch.{pit_init}
use gyarad_os.Kernel.System.Family.{Quiet, quiet, Quiet-∙}
use gyarad_os.Kernel.System.Calls.{Within}
use gyarad_os.Boot.{walk_mmap, check_flag}
use gyarad_os.Boot.Entry.{
  Image, args_of, say, under_flag, field, report_memory, walked, report_elf, announced,
  start_devices,
}

-- A part of `entry` that only uses the screen, the memory and the bus.
abbrev pub Calm : Kernel → Option Kernel → Type 0
Calm k o = Within (Quiet k) o

Calm-∙ : (k k' : Kernel) (o : Option Kernel) → Quiet k k' → Calm k' o → Calm k o
Calm-∙ k k' none q c = tt
Calm-∙ k k' (some k'') q c = Quiet-∙ q c

pub shown : (k : Kernel) (s : Screen) → Quiet k (set_screen k s)
shown k s = quiet k (set_screen k s).console k.irq k.intr_occ

module _ (image : Image) where
  pub say-Calm : (format words : List ℕ) (k : Kernel) → Calm k (say image format words k)
  unfolding print
  say-Calm format words k =
      elim (Option-cases (
        printf k.console.active_terminal image.conv_buf (args_of words image.stack) format
          k.console.screen)) [
            | inl e ↦ rw (Within, say, print, e) tt
            | inr (s, e) ↦ rw (Within, say, print, e) (shown k s)
          ]

  under_flag-Calm :
      (mbi bit : ℕ) (part : Kernel → Option Kernel) (k : Kernel) (o : Option Kernel)
      → ((k' : Kernel) → Calm k' (part k'))
      → Calm k o
      → Calm k (under_flag image mbi bit part o)
  under_flag-Calm mbi bit part k none calm c = tt
  under_flag-Calm mbi bit part k (some k') calm c =
      elim (Bool-cases (check_flag (load32 (mem k') mbi) bit)) [
        | inl e ↦ rw (Within, e) (Calm-∙ k k' _ c (calm k'))
        | inr e ↦ rw (Within, e) c
      ]

  pub report_memory-Calm : (mbi : Addr) (k : Kernel) → Calm k (report_memory image mbi k)
  unfolding report_memory
  report_memory-Calm mbi k =
      let at = λ (n : ℕ) (k : Kernel). field image mbi n k in
      under_flag-Calm mbi 2 _ k _ (λ k'. say-Calm (codes "cmdline = %s\n") (at 16 k' ∷ []) k')
        (under_flag-Calm mbi 1 _ k _
          (λ k'. say-Calm (codes "boot_device = 0x%#x\n") (at 12 k' ∷ []) k')
          (under_flag-Calm mbi 0 _ k (some k)
            (λ k'.
              say-Calm (codes "mem_lower = %uKB, mem_upper = %uKB\n") (at 4 k' ∷ at 8 k' ∷ []) k')
            (quiet k k.console k.irq k.intr_occ)))

  walked-Calm :
      (mbi : Addr) (k : Kernel) (o : Option Kernel) → Calm k o → Calm k (walked image mbi o)
  walked-Calm mbi k none c = tt
  walked-Calm mbi k (some k') c =
      elim (Option-cases (
        walk_mmap (2 ^ 32) (mem k') (field image mbi 48 k')
          ((field image mbi 48 k' + field image mbi 44 k') % 2 ^ 32))) [
            | inl e ↦ rw (Within, walked, e) tt
            | inr (end, e) ↦ rw (Within, walked, e) c
          ]

  pub report_elf-Calm : (mbi : Addr) (k : Kernel) → Calm k (report_elf image mbi k)
  unfolding report_elf
  report_elf-Calm mbi k =
      let at = λ (n : ℕ) (k : Kernel). field image mbi n k in
      under_flag-Calm mbi 6 _ k _
        (λ k'. walked-Calm mbi k' _ (
          say-Calm (codes "mmap_addr = 0x%#x, mmap_length = 0x%x\n") (at 48 k' ∷ at 44 k' ∷ []) k'))
        (under_flag-Calm mbi 5 _ k (some k)
          (λ k'.
            say-Calm (codes "elf_sec: num = %u, size = 0x%#x, addr = 0x%#x, shndx = 0x%#x\n")
              (at 28 k' ∷ at 32 k' ∷ at 36 k' ∷ at 40 k' ∷ []) k')
          (quiet k k.console k.irq k.intr_occ))

  announced-Calm :
      (format : List ℕ) (part : Log → Log) (k : Kernel) (o : Option Kernel)
      → Calm k o
      → Calm k (announced image format part o)
  announced-Calm format part k none c = tt
  announced-Calm format part k (some k') c = elim (Option-cases (say image format [] k')) [
    | inl e ↦ rw (Within, announced, e) tt
    | inr (k1, e) ↦
        let told : Quiet k' k1 = subst (Calm k') e (say-Calm format [] k') in
        let worked = quiet k1 (set_log k1 (part (log k1))).console k1.irq k1.intr_occ in
        rw (Within, announced, e)
          (Calm-∙ k _ _ (Quiet-∙ c (Quiet-∙ told worked)) (say-Calm (codes "[ OK ]\n") [] _))
  ]

  pub start_devices-Calm : (env : Env) (k : Kernel) → Calm k (start_devices image env k)
  unfolding start_devices
  start_devices-Calm env k = announced-Calm _ (enable_irq env.dev 0) k _ (
      announced-Calm _ (enable_irq env.dev 8) k _ (
        announced-Calm _ (enable_irq env.dev 12) k _ (
          announced-Calm _ (enable_irq env.dev 1) k _ (
            announced-Calm _ (enable_irq env.dev 2) k _ (
              announced-Calm _ pit_init k _ (
                announced-Calm (codes "Initalizing RTC               ... ")
                  (rtc_init env.floats env.dev) k (some (set_log k (i8259_init (log k))))
                  (quiet k (set_log k (i8259_init (log k))).console k.irq k.intr_occ)))))))
