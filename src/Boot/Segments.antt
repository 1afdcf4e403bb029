-- ===== src/Boot/Segments.antt =====
-- The segments of the LDT and the TSS.
use gyarad_os.Base.{ℕ, ◌+◌, ◌*◌, ◌^◌, ◌<◌, ◌≡◌, refl, arith}
use gyarad_os.Boot.{Segment, ldt_segment, tss_segment, set_ldt_params, set_tss_params}

-- What the processor makes of the parts of a descriptor.
unfoldable pub base : Segment → ℕ
base d = d.base_31_24 * 2 ^ 24 + d.base_23_16 * 2 ^ 16 + d.base_15_00

unfoldable pub limit : Segment → ℕ
limit d = d.seg_lim_19_16 * 2 ^ 16 + d.seg_lim_15_00

-- A system segment of the kernel, present, of so many bytes at an address.
pub record IsSystem (number addr lim : ℕ) (d : Segment) : Type 0 where
  pub base : base d ≡ addr
  pub limit : limit d ≡ lim
  pub kind : d.kind ≡ number
  pub sys : d.sys ≡ 0
  pub present : d.present ≡ 1
  pub dpl : d.dpl ≡ 0
  pub granularity : d.granularity ≡ 0

-- The descriptors that `entry` builds for the LDT and for the TSS are those of an LDT and of a TSS
-- that is free (2 and 9), present and of the kernel's privilege, and their parts make up the address
-- and the size that they are for, whatever the local variables held: addresses of 32 bits, sizes of 20.
pub segments-IsSystem :
    (ldt ldt_size tss tss_size : ℕ) (local : Segment)
    → ldt < 2 ^ 32
    → ldt_size < 2 ^ 20
    → tss < 2 ^ 32
    → tss_size < 2 ^ 20
    → IsSystem 2 ldt ldt_size (ldt_segment ldt ldt_size local)
      × IsSystem 9 tss tss_size (tss_segment tss tss_size local)
unfolding ldt_segment tss_segment set_ldt_params set_tss_params base limit
segments-IsSystem ldt ldt_size tss tss_size local a b c d = (
  record {
    base = omega arith;
    limit = omega arith;
    kind = refl;
    sys = refl;
    present = refl;
    dpl = refl;
    granularity = refl;
  },
  record {
    base = omega arith;
    limit = omega arith;
    kind = refl;
    sys = refl;
    present = refl;
    dpl = refl;
    granularity = refl;
  },
)
