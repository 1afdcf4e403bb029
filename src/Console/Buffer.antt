-- ===== src/Console/Buffer.antt =====
-- How the functions of the terminals change the line buffers.
use gyarad_os.Base.{
  ℕ, zero, suc, ◌+◌, ◌-◌, ◌*◌, ◌^◌, ◌≤◌, ◌<◌, ◌≡◌, ◌≢◌, ◌⊎◌, ◌∙◌, ap, refl, true, false, ◌&&◌,
  arith, ltb, leb, ◌==◌, if◌then◌else◌, ℕ_discrete,
}
use gyarad_os.Machine.Memory.{Addr, load32, load32-store32, store32_same, load32-eq, Apart}
use gyarad_os.Screen.{Screen, video, putc}
use gyarad_os.Screen.Cursor.{OnScreen, putc-Keeps}
use gyarad_os.Console.{Console, slot, put_slot, clear_slots, add_char_to_buffer, handle_enter}

-- `keyboard_buf[term][i]`.
abbrev pub word : Console → (term i : ℕ) → ℕ
word c term i = load32 c.screen.mem (slot c term i)

-- The three buffers, and the word behind the last one, lie apart from video memory, and the cursor
-- of terminal `t` is on the screen.
pub record IsConsole (c : Console) (t : ℕ) : Type 0 where
  pub apart : Apart c.kb (4 * 3070) video 4000
  pub cursor : OnScreen c.screen t
  pub terminal : t < 3
  pub active : c.active_terminal ≡ t

-- A write of one word leaves the others alone.
pub word-put_slot :
    (c : Console) (t i v u j : ℕ)
    → v < 2 ^ 32
    → word (put_slot c t i v) u j ≡ (if 1023 * t + i == 1023 * u + j then v else word c u j)
word-put_slot c t i v u j h = elim (ℕ_discrete (1023 * t + i) (1023 * u + j)) [
  | yes e ↦
      let hit : (1023 * t + i == 1023 * u + j) ≡ true = ground arith in
      let e' : slot c u j ≡ slot c t i = omega arith in
      rw (hit, e') (load32-store32 c.screen.mem (slot c t i) v h)
  | no ne ↦
      let miss : (1023 * t + i == 1023 * u + j) ≡ false = ground arith in
      rw miss (
        load32-eq c.screen.mem _ (slot c u j)
          (λ x lo hi. store32_same c.screen.mem (slot c t i) v x (omega arith)))
]

-- The screen's functions leave the words alone.
pub word-screen :
    (c : Console) (s : Screen) (t u j : ℕ)
    → IsConsole c t
    → 1023 * u + j < 3070
    → ((a : Addr) → (a < video) ⊎ (video + 4000 ≤ a) → s.mem a ≡ c.screen.mem a)
    → word (record c { screen = s }) u j ≡ word c u j
word-screen c s t u j is h same =
    load32-eq c.screen.mem s.mem (slot c u j) (λ x lo hi. same x (omega (arith, is.apart)))

pub record Cleared (c c' : Console) (first last : ℕ) : Type 0 where
  pub words :
      (u j : ℕ)
      → word c' u j
        ≡ (if leb first (1023 * u + j) && ltb (1023 * u + j) last then 0 else word c u j)
  pub x : c'.screen.x ≡ c.screen.x
  pub y : c'.screen.y ≡ c.screen.y
  pub kb : c'.kb ≡ c.kb
  pub num_chars : c'.num_chars ≡ c.num_chars
  pub ready : c'.ready ≡ c.ready
  pub active : c'.active_terminal ≡ c.active_terminal

-- The loop over the words of a buffer clears those of its rounds.
pub clear_slots-Cleared :
    (k t i : ℕ) (c : Console) → Cleared c (clear_slots k t i c) (1023 * t + i) (1023 * t + i + k)
unfolding clear_slots
clear_slots-Cleared zero t i c = record {
  words = λ u j. ground arith;
  x = refl;
  y = refl;
  kb = refl;
  num_chars = refl;
  ready = refl;
  active = refl;
}
clear_slots-Cleared (suc k) t i c =
    let rest = clear_slots-Cleared k t (i + 1) (put_slot c t i 0) in
    record {
      words = λ u j. rest.words u j ∙ ground (arith, word-put_slot c t i 0 u j (omega arith));
      x = rest.x;
      y = rest.y;
      kb = rest.kb;
      num_chars = rest.num_chars;
      ready = rest.ready;
      active = rest.active;
    }

-- A buffer is cleared without harm to the rest of the console.
pub Cleared-IsConsole :
    {c c' : Console} {first last t : ℕ} → Cleared c c' first last → IsConsole c t → IsConsole c' t
Cleared-IsConsole {t} done is = record {
  apart = rw (done.kb) (is.apart);
  cursor = record {
    col = rw (ap (λ f. f t) done.x) (is.cursor.col);
    row = rw (ap (λ f. f t) done.y) (is.cursor.row);
  };
  terminal = is.terminal;
  active = done.active ∙ is.active;
}

-- What a character does that is neither a new line nor NUL.
pub record Typed (c c' : Console) (t ch : ℕ) : Type 0 where
  pub console : IsConsole c' t
  pub count : c'.num_chars t ≡ c.num_chars t + 1
  pub kb : c'.kb ≡ c.kb
  pub words :
      (u j : ℕ)
      → 1023 * u + j < 3070
      → word c' u j ≡ (if 1023 * t + c.num_chars t == 1023 * u + j then ch else word c u j)

-- On a well-formed console whose buffer has room, a byte that is neither a new line nor NUL goes
-- to the next word of the terminal's buffer, and to no other word of the buffers, and the screen
-- stays well formed.
pub add_char_to_buffer-Typed :
    (c : Console) (t ch : ℕ)
    → IsConsole c t
    → c.num_chars t < 1023
    → ch ≢ 10
    → ch ≢ 0
    → ch < 2 ^ 32
    → Typed c (add_char_to_buffer ch t c).1 t ch
unfolding add_char_to_buffer
add_char_to_buffer-Typed c t ch is room nl nul small =
    let n = c.num_chars t in
    let c1 = put_slot c t n ch in
    let keeps = putc-Keeps t ch c1.screen (record { col = is.cursor.col; row = is.cursor.row }) in
    let r : ltb n 1023 ≡ true = ground arith in
    let a : (ch == 10) ≡ false = ground arith in
    let b : (ch == 0) ≡ false = ground arith in
    rw (r, a, b, is.active)
      (record {
        console = record {
          apart = is.apart;
          cursor = keeps.on;
          terminal = is.terminal;
          active = refl;
        };
        count = ground arith;
        kb = refl;
        words = λ u j h.
            word-screen c1 (putc t ch c1.screen) t u j
              (record {
                apart = is.apart;
                cursor = record { col = is.cursor.col; row = is.cursor.row };
                terminal = is.terminal;
                active = is.active;
              })
              h keeps.outside
            ∙ word-put_slot c t n ch u j small;
      })

-- Enter, with at most 1023 characters in the active terminal's buffer, makes the buffer ready and
-- fills it up with NULs behind its characters, and so the word behind the buffer, the first one of
-- the next terminal's buffer.
pub handle_enter-words :
    (c : Console) (t u j : ℕ)
    → c.active_terminal ≡ t
    → c.num_chars t ≤ 1023
    → (word (handle_enter c) u j ≡ (
        if leb (1023 * t + c.num_chars t) (1023 * u + j) && leb (1023 * u + j) (1023 * t + 1023)
        then 0
        else word c u j))
      × ((handle_enter c).ready t ≡ 1)
      × ((handle_enter c).num_chars t ≡ c.num_chars t)
unfolding handle_enter
handle_enter-words c t u j e h =
    let n = c.num_chars c.active_terminal in
    let done = clear_slots-Cleared (1024 - n) c.active_terminal n c in
    let same : n ≡ c.num_chars t = ap c.num_chars e in
    (done.words u j ∙ ground arith, ground arith, ap (λ f. f t) done.num_chars)

pub handle_enter-IsConsole :
    (c : Console) (t : ℕ)
    → IsConsole c t
    → IsConsole (handle_enter c) t × ((handle_enter c).kb ≡ c.kb)
unfolding handle_enter
handle_enter-IsConsole c t is =
    let u = c.active_terminal in
    let done = clear_slots-Cleared (1024 - c.num_chars u) u (c.num_chars u) c in
    let b = Cleared-IsConsole done is in
    (
      record { apart = b.apart; cursor = b.cursor; terminal = b.terminal; active = b.active },
      done.kb,
    )
