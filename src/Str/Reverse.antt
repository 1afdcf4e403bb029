-- ===== src/Str/Reverse.antt =====
-- `strrev` reverses a string in place.
use gyarad_os.Base.{
  ℕ, zero, suc, ◌+◌, ◌-◌, ◌≤◌, ◌<◌, ◌^◌, ◌≡◌, ◌∙◌, ◌&&◌, some, arith, ltb, leb, if◌then◌else◌,
  Bool-cases, inl, inr,
}
use gyarad_os.Machine.Memory.{Addr, Mem, poke, IsString, ◌≐◌}
use gyarad_os.Str.{strrev_loop, strrev}
use gyarad_os.Str.Length.{strlen_iff}

-- The reference: the bytes at the offsets from `beg` up to `past`, in the other order.
abbrev pub mirror : Mem → Addr → (beg past : ℕ) → Mem
mirror m s beg past =
    λ x. if leb (s + beg) x && ltb x (s + past) then m (s + beg + (s + past - 1 - x)) else m x

mirror_step :
    (m : Mem) (s : Addr) (beg past : ℕ)
    → beg + 1 < past
    → (x : Addr)
    → mirror
        (poke (poke m (s + (past - 1)) (m (s + beg))) (s + beg) (m (s + (past - 1))))
        s
        (beg + 1)
        (past - 1)
        x
      ≡ mirror m s beg past x
mirror_step m s beg past h x = ground arith

strrev_loop-mirror :
    (f : ℕ) (m : Mem) (s : Addr) (beg past : ℕ)
    → past ≤ beg + f
    → strrev_loop f m s beg past ≐ mirror m s beg past
unfolding strrev_loop
strrev_loop-mirror zero m s beg past h x = ground arith
strrev_loop-mirror (suc f) m s beg past h x = elim (Bool-cases (ltb (beg + 1) past)) [
  | inl more ↦
      let m' = poke (poke m (s + (past - 1)) (m (s + beg))) (s + beg) (m (s + (past - 1))) in
      rw more (
        strrev_loop-mirror f m' s (beg + 1) (past - 1) (omega arith) x
        ∙ mirror_step m s beg past (ground arith) x)
  | inr done ↦ rw done (ground arith)
]

-- `strrev` of a string of `n` bytes, with `n` below 2 ^ 32, ends, and reverses those bytes in
-- place: it writes nothing else.
pub strrev-mirror :
    (m : Mem) (s : Addr) (n : ℕ)
    → IsString m s n
    → n < 2 ^ 32
    → (g : Mem) × (strrev m s ≡ some g) × (g ≐ mirror m s 0 n)
unfolding strrev
strrev-mirror m s n is h =
    let e = (strlen_iff m s n).1 (is, h) in
    (strrev_loop n m s 0 n, rw (e, strrev), strrev_loop-mirror n m s 0 n (omega arith))
