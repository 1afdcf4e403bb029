-- ===== src/Drivers/Rtc.antt =====
-- drivers/rtc.c and the rounding of lib/math.c: the real time clock. The machine's floats are not
-- code of the kernel: a record of the operations that the code uses is a parameter.
pub mod Frequency
mod Tests
use gyarad_os.Base.{
  ℕ, zero, suc, ◌+◌, ◌-◌, ◌/◌, ◌%◌, ◌^◌, Bool, true, false, ◌&&◌, ◌||◌, not, Option, none, some,
  List, [], ◌∷◌, bit_and, bit_or, ◌==◌, ltb, leb, if◌then◌else◌,
}
use gyarad_os.Base.Int.{ℤ, pos, negsuc, ◌+ℤ◌, ◌-ℤ◌}
use gyarad_os.Machine.Bus.{Log, Device, outb, inb}
use gyarad_os.Drivers.Pic.{send_eoi}

-- Single precision arithmetic, by its bit patterns: the patterns are what `logBase2` works on.
-- A conversion `trunc` is the one of a C cast to `int`; a literal stands for its nearest float.
pub record Floats : Type 0 where
  pub of_int : ℤ → ℕ
  pub of_uint : ℕ → ℕ
  pub literal : (mantissa : ℕ) → (decimals : ℕ) → ℕ
  pub add : ℕ → ℕ → ℕ
  pub sub : ℕ → ℕ → ℕ
  pub mul : ℕ → ℕ → ℕ
  pub div : ℕ → ℕ → ℕ
  pub lt_zero : ℕ → Bool
  pub ge_zero : ℕ → Bool
  pub trunc : ℕ → ℤ

-- `frequency < 2 || frequency > 1024`.
unfoldable pub out_of_range : ℤ → Bool
out_of_range (pos f) = ltb f 2 || ltb 1024 f
out_of_range (negsuc n) = true

-- `!((frequency != 0) && !(frequency & (frequency - 1)))`, past the range check.
unfoldable pub not_power : ℤ → Bool
not_power (pos f) = not (not (f == 0) && bit_and f (f - 1) == 0)
not_power (negsuc n) = true

module _ (fl : Floats) where
  open fl use {of_int, of_uint, literal, add, sub, mul, div, lt_zero, ge_zero, trunc}

  -- `logBase2`: `vx.i` and `mx.i` are the bit patterns.
  pub log_base2 : ℕ → ℕ
  log_base2 x =
      let mx = bit_or (bit_and x 0x007f_ffff) 0x3f00_0000 in
      let y = mul (of_uint x) (literal 11920928955078125 23) in
      sub (sub (sub y (literal 12422551499 8)) (mul (literal 1498030302 9) mx))
        (div (literal 172587999 8) (add (literal 3520887068 10) mx))

  pub log : ℕ → ℕ
  log x = mul (literal 69314718 8) (log_base2 x)

  -- `x < 0` and `x >= 0.0f`. The code's comments promise the ceiling and the floor.
  pub ceil : ℕ → ℤ
  ceil x = if lt_zero x then trunc x else trunc x +ℤ pos 1

  pub floor : ℕ → ℤ
  floor x = if ge_zero x then trunc x else trunc x -ℤ pos 1

  -- `(int)((int)(rateVal * 10) % 10) > 5`: the remainder has the sign of the dividend.
  pub rounds_up : ℕ → Bool
  rounds_up rate = elim (trunc (mul rate (of_int (pos 10)))) [
    | pos n ↦ ltb 5 (n % 10)
    | negsuc n ↦ false
  ]

  -- `rate = 16 - rate; rate &= 0x0F`, in two's complement.
  pub divider_bits : ℤ → ℕ
  divider_bits (pos n) = (16 + (16 - n % 16)) % 16
  divider_bits (negsuc n) = (16 + (n % 16 + 1)) % 16

  pub rate_bits : ℤ → ℕ
  rate_bits frequency =
      let rate = log_base2 (of_int frequency) in
      divider_bits (if rounds_up rate then ceil rate else floor rate)

  -- The register's upper bits are kept: `(previous & 0xF0) | rate`.
  unfoldable pub rtc_set_frequency : Device → (frequency : ℤ) → Log → ℤ × Log
  rtc_set_frequency dev frequency l =
      if out_of_range frequency
      then (negsuc 0, l)
      else if not_power frequency
      then (negsuc 0, l)
      else (let (previous, l') = inb dev 0x71 (outb 0x8a 0x70 l) in
          (
            pos 0,
            outb (bit_or (bit_and previous 0xf0) (rate_bits frequency)) 0x71 (outb 0x8a 0x70 l'),
          ))

  -- `rtc_init` after it has noted the mode: register B's bit 6, then 2 Hz.
  unfoldable pub rtc_init : Device → Log → Log
  rtc_init dev l =
      let (previous, l') = inb dev 0x71 (outb 0x8b 0x70 l) in
      (rtc_set_frequency dev (pos 2) (outb (bit_or previous 0x40) 0x71 (outb 0x8b 0x70 l'))).1

  unfoldable pub rtc_open : Device → Log → ℤ × Log
  rtc_open dev l = (pos 0, (rtc_set_frequency dev (pos 2) l).1)

  unfoldable pub rtc_close : Device → Log → ℤ × Log
  rtc_close dev l = (pos 0, (rtc_set_frequency dev (pos 2) l).1)

  -- `buf` is the integer that the caller's pointer shows, and nothing for a null pointer.
  unfoldable pub rtc_write : Device → (buf : Option ℤ) → (nbytes : ℤ) → Log → ℤ × Log
  rtc_write dev buf (negsuc n) l = (negsuc 0, l)
  rtc_write dev none (pos n) l = (negsuc 0, l)
  rtc_write dev (some frequency) (pos n) l =
      if n == 4 then rtc_set_frequency dev frequency l else (negsuc 0, l)

-- `rtc_read` past its spin on `intr_occ`, which an interrupt sets: nothing is returned while the
-- flag is clear.
unfoldable pub rtc_read : (intr_occ : Bool) → Option (ℤ × Bool)
rtc_read true = some (pos 0, false)
rtc_read false = none

unfoldable pub rtc_special_eoi : Device → Log → Log
rtc_special_eoi dev l = (inb dev 0x71 (outb 0x0c 0x70 l)).1

-- `rtc_handle_interrupt` with the work of its mode given: it sets `intr_occ` and acknowledges the
-- interrupt, first to the controllers and then to the clock.
unfoldable pub rtc_handle_interrupt : Device → (mode : Log → Log) → Log → Bool × Log
rtc_handle_interrupt dev mode l = (true, rtc_special_eoi dev (send_eoi 8 (mode l)))
