-- ===== src/Drivers/Rtc/Frequency.antt =====
-- Which frequencies the clock accepts, and what it then writes.
use gyarad_os.Base.{
  ◌/◌, ◌%◌, if◌then◌else◌, ℕ, ◌+◌, ◌-◌, ◌^◌, ◌<◌, ◌≡◌, Bool, not, ◌&&◌, bit_and, bit_or, ltb, ◌==◌,
}
use gyarad_os.Base.Int.{ℤ, pos, negsuc}
use gyarad_os.Base.Bits.{any_below}
use gyarad_os.Machine.Bus.{Log, Device, outb, inb}
use gyarad_os.Drivers.Rtc.{Floats, rate_bits, log_base2, rounds_up, ceil, floor}

-- What the two checks let through.
abbrev passes : ℕ → Bool
passes f = not (ltb f 2) && (not (f == 0) && bit_and f (f - 1) == 0)

-- One of 2, 4, 8, …, 1024.
abbrev is_power : ℕ → Bool
is_power f = any_below 10 (λ k. f == 2 ^ (k + 1))

-- The frequency is a power of two from 2 to 1024.
abbrev pub IsRate : ℤ → Type 0
IsRate frequency = (k : ℕ) × (k < 10) × (frequency ≡ pos (2 ^ (k + 1)))

-- The rate of the logarithm `z`: 16 less it, in four bits.
abbrev pub IsRateOf : ℤ → ℕ → Type 0
IsRateOf (pos n) rate = (rate < 16) × ((rate + n) % 16 ≡ 0)
IsRateOf (negsuc n) rate = (rate < 16) × (rate ≡ (n + 1) % 16)

merge_ok : ℕ → ℕ → Bool
merge_ok previous rate =
    let v = bit_or (bit_and previous 0xf0) rate in v / 16 == previous / 16 && v % 16 == rate

module _ (fl : Floats) (dev : Device) (l : Log) where
  -- The logarithm of the frequency to the base 2, as the code rounds it.
  abbrev pub rounded : ℤ → ℤ
  rounded frequency =
      let rate = log_base2 fl (fl.of_int frequency) in
      if rounds_up fl rate then ceil fl rate else floor fl rate

  -- The events of an accepted change: register A is selected, read, selected again and written, with
  -- the upper half that was read and the rate of the logarithm in the lower half.
  abbrev pub Written : ℤ → Log → Type 0
  Written frequency l' =
      let (previous, l1) = inb dev 0x71 (outb 0x8a 0x70 l) in
      (v : ℕ) × (l' ≡ outb v 0x71 (outb 0x8a 0x70 l1))
      × (v / 16 ≡ previous / 16)
      × IsRateOf (rounded frequency) (v % 16)

  written : ℤ → Log
  written frequency =
      let l1 = outb 0x8a 0x70 l in
      let (previous, l2) = inb dev 0x71 l1 in
      outb (bit_or (bit_and previous 0xf0) (rate_bits fl frequency)) 0x71 (outb 0x8a 0x70 l2)
