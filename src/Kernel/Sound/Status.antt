-- ===== src/Kernel/Sound/Status.antt =====
-- The state machine of the driver: what the interrupts of the card and the calls make of `status`
-- and of the half of the buffer that is filled next.
use gyarad_os.Base.{
  ℕ, ◌+◌, ◌≡◌, ◌≢◌, refl, ◌⊎◌, inl, inr, Bool, true, false, Bool-cases, Option-cases, not, ◌||◌,
  Option, none, some, arith, ltb, ◌==◌, if◌then◌else◌,
}
use mathlib.Core.Path.{subst}
use gyarad_os.Base.Int.{ℤ, negsuc}
use gyarad_os.Machine.Memory.{Addr}
use gyarad_os.Machine.Bus.{Log}
use gyarad_os.Screen.{Screen}
use gyarad_os.Kernel.State.{
  Kernel, Env, Result, ret, enters, resumes, wait, overruns, fault, as_uint, cli,
}
use gyarad_os.Kernel.Sound.{
  Sound, Played, done, ends, init_sound_blaster, sound_blaster_reset, sound_blaster_resume,
  sound_blaster_stop, sound_blaster_clear_mem, sound_blaster_play_test, play_block, play_next,
  sound_balster_irq_handler, then_call, then_do, on_bus, swap_half,
}

-- What holds where a call comes back.
abbrev pub Comes : (Sound → Kernel → Type 0) → Played → Type 0
Comes P (done sb k) = P sb k
Comes P (ends r) = Unit

then_call-Comes :
    (P : Sound → Kernel → Type 0) (r : Result) (f : ℤ → Kernel → Played)
    → ((n : ℤ) (k : Kernel) → Comes P (f n k))
    → Comes P (then_call r f)
unfolding then_call
then_call-Comes P (ret n k) f h = h n k
then_call-Comes P (enters e k) f h = tt
then_call-Comes P (resumes s k) f h = tt
then_call-Comes P wait f h = tt
then_call-Comes P overruns f h = tt
then_call-Comes P fault f h = tt

Comes-if :
    (P : Sound → Kernel → Type 0) (b : Bool) (x y : Played)
    → Comes P x
    → Comes P y
    → Comes P (if b then x else y)
Comes-if P true x y p q = p
Comes-if P false x y p q = q

then_do-Comes :
    (P Q : Sound → Kernel → Type 0) (x : Played) (f : Sound → Kernel → Played)
    → Comes P x
    → ((sb : Sound) (k : Kernel) → P sb k → Comes Q (f sb k))
    → Comes Q (then_do x f)
unfolding then_do
then_do-Comes P Q (done sb k) f p g = g sb k p
then_do-Comes P Q (ends r) f p g = tt

on_bus-Comes :
    (P : Sound → Type 0) (sb : Sound) (k : Kernel) (o : Option Log)
    → P sb
    → Comes (λ sb' k'. P sb') (on_bus sb k o)
unfolding on_bus
on_bus-Comes P sb k none p = tt
on_bus-Comes P sb k (some l) p = p

-- What holds of the driver where there is a result.
abbrev Given : (Sound → Type 0) → Option (Sound × Screen) → Type 0
Given P none = Unit
Given P (some (sb, s)) = P sb

module _ (env : Env) (patience : ℕ) (d_buf : Addr) (cmd : ℕ) where
  -- What an interrupt of the card may do: nothing when nothing plays; play the block that was read
  -- and go to the other half; stop; or play the last block, which is shorter, and stop.
  pub data Turn (sb : Sound) : Sound → Type 0 where
    idle : sb.status ≡ 0 → Turn sb sb
    next : sb.status ≢ 0 → Turn sb (swap_half d_buf sb)
    stops : sb.status ≢ 0 → Turn sb (record sb { status = 0; fd_b_current = d_buf })
    drains : sb.status ≢ 0 → Turn sb (record sb { status = 0; fd_b_current = d_buf + 0x8000 })

  clear_mem-Comes :
      (P : Sound → Type 0) (sb : Sound) (k : Kernel)
      → P (record sb { status = 0; fd_b_current = d_buf })
      → Comes (λ sb' k'. P sb') (sound_blaster_clear_mem env patience d_buf cmd sb k)
  unfolding sound_blaster_clear_mem
  clear_mem-Comes P sb k p = then_call-Comes (λ sb' k'. P sb') _ _ (λ n k'. p)

  play_block-Comes :
      (P : Sound → Type 0) (n : ℕ) (sb : Sound) (k : Kernel)
      → P (swap_half d_buf sb)
      → P (record sb { status = 0; fd_b_current = d_buf + 0x8000 })
      → Comes (λ sb' k'. P sb') (play_block env patience d_buf cmd n sb k)
  unfolding play_block
  play_block-Comes P n sb k p q =
      let same : (d_buf == d_buf) ≡ true = ground arith in
      then_do-Comes (λ sb' k'. P (swap_half d_buf sb')) (λ sb' k'. P sb') _ _
        (Comes-if (λ sb' k'. P (swap_half d_buf sb')) (ltb n 0x8000) _ _
          (then_do-Comes (λ sb' k'. sb' ≡ sb) (λ sb' k'. P (swap_half d_buf sb')) _ _
            (on_bus-Comes (λ sb'. sb' ≡ sb) sb k _ refl)
            (λ sb1 k1 e. clear_mem-Comes (λ sb'. P (swap_half d_buf sb')) sb1 k1 (rw (e, same) q)))
          p)
        (λ sb1 k1 h. on_bus-Comes P (swap_half d_buf sb1) k1 _ h)

  play_next-Turn :
      (sb : Sound) (k : Kernel)
      → sb.status ≢ 0
      → Comes (λ sb' k'. Turn sb sb') (play_next env patience d_buf cmd sb k)
  unfolding play_next
  play_next-Turn sb k ne =
      then_call-Comes (λ sb' k'. Turn sb sb') _ _
        (λ n k'.
          Comes-if (λ sb' k2. Turn sb sb') (as_uint n == 0) _ _
            (then_do-Comes (λ sb' k2. Turn sb sb') (λ sb' k2. Turn sb sb') _ _
              (clear_mem-Comes (Turn sb) sb k' (stops ne))
              (λ sb1 k1 t. on_bus-Comes (Turn sb) sb1 k1 _ t))
            (play_block-Comes (Turn sb) (as_uint n) sb k' (next ne) (drains ne)))

  -- Every interrupt of the card that the driver comes back from makes one of the four steps, and
  -- leaves the interrupt flag as it was.
  pub sound_balster_irq_handler-Turn :
      (sb : Sound) (k : Kernel)
      → Comes
          (λ sb' k'. Turn sb sb' × (k'.irq ≡ k.irq))
          (sound_balster_irq_handler env patience d_buf cmd sb k)
  unfolding sound_balster_irq_handler then_do
  sound_balster_irq_handler-Turn sb k = elim (Bool-cases (sb.status == 0)) [
    | inl e ↦ rw e (idle (ground (arith, e)), refl)
    | inr e ↦ rw e (
        then_do-Comes (λ sb' k'. Turn sb sb') (λ sb' k'. Turn sb sb' × (k'.irq ≡ k.irq)) _ _
          (play_next-Turn sb (cli k) (ground (arith, e))) (λ sb1 k1 t. (t, refl)))
  ]

  -- The states of the driver that the kernel can come to, from its start on.
  pub data Reaches : Sound → Type 0 where
    start :
        (terminal : ℕ) (sb sb' : Sound) (s s' : Screen)
        → sb.fd_b_current ≡ d_buf
        → init_sound_blaster patience env.dev terminal sb s ≡ some (sb', s')
        → Reaches sb'
    test :
        (lfsr : ℕ) (sb sb' : Sound) (k k' : Kernel)
        → Reaches sb
        → (sound_blaster_play_test env patience d_buf cmd lfsr sb k).1 ≡ done sb' k'
        → Reaches sb'
    interrupt :
        (sb sb' : Sound) (k k' : Kernel)
        → Reaches sb
        → sound_balster_irq_handler env patience d_buf cmd sb k ≡ done sb' k'
        → Reaches sb'

  -- The states that a card's driver may be in.
  pub record Plays (sb : Sound) : Type 0 where
    pub status : (sb.status ≡ 0) ⊎ (sb.status ≡ 1)
    pub half : (sb.fd_b_current ≡ d_buf) ⊎ (sb.fd_b_current ≡ d_buf + 0x8000)

  if_either :
      (b : Bool) → let x = if b then d_buf + 0x8000 else d_buf in (x ≡ d_buf) ⊎ (x ≡ d_buf + 0x8000)
  if_either true = inr refl
  if_either false = inl refl

  Turn-Plays : (sb sb' : Sound) → Turn sb sb' → Plays sb → Plays sb'
  Turn-Plays sb sb' (idle e) p = p
  Turn-Plays sb sb' (next e) p = record {
    status = p.status;
    half = (if_either (sb.fd_b_current == d_buf));
  }
  Turn-Plays sb sb' (stops e) p = record { status = inl refl; half = inl refl }
  Turn-Plays sb sb' (drains e) p = record { status = inl refl; half = inr refl }

  Comes-at :
      (P : Sound → Kernel → Type 0) (x : Played) (sb : Sound) (k : Kernel)
      → Comes P x
      → x ≡ done sb k
      → P sb k
  Comes-at P x sb k h e = subst (Comes P) e h

  start-Plays :
      (terminal : ℕ) (sb : Sound) (s : Screen)
      → sb.fd_b_current ≡ d_buf
      → Given Plays (init_sound_blaster patience env.dev terminal sb s)
  unfolding init_sound_blaster
  start-Plays terminal sb s b =
      elim (Option-cases (sound_blaster_reset patience env.dev terminal s)) [
        | inl e ↦ rw (Given, init_sound_blaster, e) tt
        | inr (s1, e) ↦
            rw (Given, init_sound_blaster, e) (record { status = inl refl; half = inl b })
      ]

  test-Plays :
      (lfsr : ℕ) (sb : Sound) (k : Kernel)
      → Plays sb
      → Comes (λ sb' k'. Plays sb') (sound_blaster_play_test env patience d_buf cmd lfsr sb k).1
  unfolding sound_blaster_play_test
  test-Plays lfsr sb k p =
      then_do-Comes (λ sb' k'. Plays sb') (λ sb' k'. Plays sb') _ _
        (on_bus-Comes Plays _ k _ (record { status = inr refl; half = p.half }))
        (λ sb1 k1 h. on_bus-Comes Plays sb1 _ _ h)

  Reaches-Plays : (sb : Sound) → Reaches sb → Plays sb
  Reaches-Plays sb (start terminal sb0 _ s s' b e) =
      subst (Given Plays) e (start-Plays terminal sb0 s b)
  Reaches-Plays sb (test lfsr sb0 _ k k' r e) =
      Comes-at (λ sb' k'. Plays sb') _ sb k' (test-Plays lfsr sb0 k (Reaches-Plays sb0 r)) e
  Reaches-Plays sb (interrupt sb0 _ k k' r e) =
      Turn-Plays sb0 sb (Comes-at _ _ sb k' (sound_balster_irq_handler-Turn sb0 k) e).0
        (Reaches-Plays sb0 r)

  not_paused : (sb : Sound) → Plays sb → not (sb.status == 2) ≡ true
  not_paused sb p = ground (arith, p.status)

  never_both : (sb : Sound) → (not (sb.status == 1) || not (sb.status == 2)) ≡ true
  never_both sb = ground arith

  -- In every state that the driver comes to it is playing or stopped, never paused, and the buffer is
  -- filled at one of its two halves. So a call that resumes the sound fails without a word to the
  -- card, and a call that stops it does too.
  pub Reaches-refuses :
      (sb : Sound) (l : Log)
      → Reaches sb
      → Plays sb
        × (sound_blaster_resume patience env.dev sb l ≡ some (negsuc 0, l))
        × (sound_blaster_stop patience env.dev sb l ≡ some (negsuc 0, l))
  unfolding sound_blaster_resume sound_blaster_stop
  Reaches-refuses sb l r =
      let p = Reaches-Plays sb r in (p, rw (not_paused sb p) refl, rw (never_both sb) refl)
