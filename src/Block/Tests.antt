-- ===== src/Block/Tests.antt =====
-- Copies and fills of lib/lib.c at unaligned addresses, with places that overlap.
use gyarad_os.Base.{◌%◌, inl, arith}
use gyarad_os.Machine.Memory.{Mem, blit, ◌≐◌}
use gyarad_os.Block.{memcpy, memmove}
use gyarad_os.Block.Move.{memcpy-blit, memmove-blit}

abbrev counted : Mem
counted a = a % 0x100

memcpy-blit_example : memcpy counted 0x1001 0x1003 10 ≐ blit counted 0x1001 0x1003 10
memcpy-blit_example = memcpy-blit counted 0x1001 0x1003 10 (λ a. omega arith) (inl (omega arith))

memmove-blit_example : memmove counted 0x1003 0x1001 10 ≐ blit counted 0x1003 0x1001 10
memmove-blit_example = memmove-blit counted 0x1003 0x1001 10
