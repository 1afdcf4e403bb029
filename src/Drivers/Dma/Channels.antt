-- ===== src/Drivers/Dma/Channels.antt =====
-- What reaches a DMA controller's address and count ports.
use gyarad_os.Base.{
  ℕ, ◌+◌, ◌-◌, ◌*◌, ◌/◌, ◌%◌, ◌^◌, ◌≤◌, ◌<◌, ◌≡◌, ◌∷◌, arith, ltb, if◌then◌else◌, Bool-cases, inl,
  inr,
}
use gyarad_os.Machine.Bus.{out, Log, outb}
use gyarad_os.Drivers.Dma.{set_dma_rate}

-- What the two bytes that were last written to a port make up, the first one low.
abbrev pub LastWord : (port : ℕ) → Log → ℕ → Type 0
LastWord port l w =
    (hi : ℕ) × (lo : ℕ) × (r : Log) × (l ≡ out hi port ∷ out lo port ∷ r) × (hi * 0x100 + lo ≡ w)

-- For a channel below 8 and a size from 1 to 64 KB, `set_dma_rate` leaves the count of transfers
-- less one at the channel's count port, low byte first: bytes on the first controller, words on
-- the second.
pub set_dma_rate-count :
    (channel size : ℕ) (l : Log)
    → channel < 8
    → 0 < size
    → size ≤ 0x1_0000
    → LastWord
        (if ltb channel 4 then channel * 2 + 1 else (channel - 4) * 4 + 0xc2)
        (set_dma_rate channel size l)
        (if ltb channel 4 then size - 1 else (size - 1) / 2)
unfolding set_dma_rate outb
set_dma_rate-count channel size l h lo hi = elim (Bool-cases (ltb channel 4)) [
  | inl e ↦
      let v = size - 1 in
      let less : (size + 0xffff_ffff) % 2 ^ 32 ≡ v = omega arith in
      rw (e, less) (v / 0x100, v % 0x100, l, ground arith, omega arith)
  | inr e ↦
      let v = (size - 1) / 2 in
      let less : (size + 0xffff_ffff) % 2 ^ 32 ≡ size - 1 = omega arith in
      rw (e, less) (v / 0x100, v % 0x100, l, ground arith, omega arith)
]
