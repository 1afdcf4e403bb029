-- ===== src/Drivers/Speaker/Tests.antt =====
-- A speaker on a port that keeps what is written to it.
use gyarad_os.Base.{◌*◌, ◌/◌, ◌≡◌, refl, false, arith, [], ◌∷◌, ◌==◌, if◌then◌else◌}
use gyarad_os.Machine.Bus.{Device, out, got}
use gyarad_os.Drivers.Speaker.{sound_bootup, speaker_single_beep}
use gyarad_os.Drivers.Speaker.Gate.{IsLatch, gate, sound_bootup-closes}

abbrev latch : Device
latch [] port = 0x31
latch (out v p ∷ l) port = if p == port then v else latch l port
latch (got v p ∷ l) port = latch l port

latch-IsLatch : IsLatch latch 0x61
latch-IsLatch = record {
  written = λ v l. refl;
  elsewhere = λ v other l ne. (let e : (other == 0x61) ≡ false = ground arith in rw e refl);
  read = λ v other l. refl;
}

sound_bootup-closes_example :
    (gate latch (sound_bootup latch []) ≡ gate latch [] / 4 * 4)
    × (gate latch (speaker_single_beep latch []) ≡ gate latch [] / 4 * 4)
sound_bootup-closes_example = sound_bootup-closes latch latch-IsLatch []
