-- ===== src/Console/Lines.antt =====
-- A line that is typed, ended by Enter and read.
use gyarad_os.Base.{
  ℕ, zero, suc, ◌+◌, ◌*◌, ◌%◌, ◌≤◌, ◌<◌, ◌≡◌, ◌≢◌, ◌⊎◌, ◌∙◌, ap, refl, false, arith, ltb, ◌==◌,
  if◌then◌else◌, some, dec_lt,
}
use gyarad_os.Base.Int.{pos}
use gyarad_os.Machine.Memory.{Addr, poke, load32, store32_same, load32-eq, Apart}
use gyarad_os.Screen.{video, update, new_line}
use gyarad_os.Screen.Cursor.{new_line-Keeps}
use gyarad_os.Console.{
  Console, slot, put_slot, add_char_to_buffer, handle_enter, read_slots, terminal_read,
}
use gyarad_os.Console.Buffer.{
  word, IsConsole, add_char_to_buffer-Typed, handle_enter-words, handle_enter-IsConsole,
}

-- The characters `text i` to `text (i + k - 1)`, typed one after the other in terminal `t`.
pub type_text : ℕ → (t : ℕ) → (text : ℕ → ℕ) → (i : ℕ) → Console → Console
type_text zero t text i c = c
type_text (suc k) t text i c = type_text k t text (i + 1) (add_char_to_buffer (text i) t c).1

-- Characters that go to the buffer: neither a new line nor NUL, and bytes.
abbrev pub IsText : (ℕ → ℕ) → ℕ → Type 0
IsText text n = (i : ℕ) → i < n → (text i ≢ 10) × (text i ≢ 0) × (text i < 0x100)

-- The buffer of terminal `t` holds the first `n` characters of the text.
pub record IsLine (kb : Addr) (c : Console) (t : ℕ) (text : ℕ → ℕ) (n : ℕ) : Type 0 where
  pub console : IsConsole c t
  pub place : c.kb ≡ kb
  pub count : c.num_chars t ≡ n
  pub words : (i : ℕ) → i < n → word c t i ≡ text i

type_text-IsLine :
    (k t : ℕ) (text : ℕ → ℕ) (i : ℕ) {kb : Addr} (c : Console)
    → IsText text (i + k)
    → i + k ≤ 1023
    → IsLine kb c t text i
    → IsLine kb (type_text k t text i c) t text (i + k)
unfolding type_text
type_text-IsLine zero t text i c ok fits line = record {
  console = line.console;
  place = line.place;
  count = line.count ∙ omega arith;
  words = λ j h. line.words j (omega arith);
}
type_text-IsLine (suc k) t text i {kb} c ok fits line =
    let (nl, nul, byte) = ok i (omega arith) in
    let typed =
      add_char_to_buffer-Typed c t (text i) line.console (omega (arith, line.count)) nl nul
        (omega arith) in
    let e : i + suc k ≡ i + 1 + k = omega arith in
    let line' : IsLine kb (add_char_to_buffer (text i) t c).1 t text (i + 1) = record {
      console = typed.console;
      place = typed.kb ∙ line.place;
      count = omega (arith, typed.count, line.count);
      words = λ j h.
          typed.words t j (omega (arith, line.console.terminal))
          ∙ ground (arith, line.count, line.words j);
    } in
    rw e (
      type_text-IsLine k t text (i + 1) (add_char_to_buffer (text i) t c).1
        (λ j h. ok j (omega arith)) (omega arith) line')

-- What the loop of `terminal_read` has done after `k` rounds from `i` on.
record Taken (c c' : Console) (t : ℕ) (buf : Addr) (i k : ℕ) : Type 0 where
  copied : (j : ℕ) → i ≤ j → j < i + k → c'.screen.mem (buf + j) ≡ word c t j % 0x100
  others :
      (a : Addr)
      → (a < buf + i) ⊎ (buf + i + k ≤ a)
      → (a < slot c t i) ⊎ (slot c t i + 4 * k ≤ a)
      → c'.screen.mem a ≡ c.screen.mem a
  kb : c'.kb ≡ c.kb
  x : c'.screen.x ≡ c.screen.x
  y : c'.screen.y ≡ c.screen.y
  ready : c'.ready ≡ c.ready
  num_chars : c'.num_chars ≡ c.num_chars
  active : c'.active_terminal ≡ c.active_terminal

read_slots-Taken :
    (k t : ℕ) (buf : Addr) (i : ℕ) (c : Console)
    → Apart (buf + i) k (slot c t i) (4 * k)
    → Taken c (read_slots k t buf i c) t buf i k
unfolding read_slots
read_slots-Taken zero t buf i c apart = record {
  copied = λ j p q. absurd (omega arith);
  others = λ a p q. refl;
  kb = refl;
  x = refl;
  y = refl;
  ready = refl;
  num_chars = refl;
  active = refl;
}
read_slots-Taken (suc k) t buf i c apart =
    let m = c.screen.mem in
    let m1 = poke m (buf + i) (load32 m (slot c t i) % 0x100) in
    let c1 = put_slot (record c { screen = record (c.screen) { mem = m1 } }) t i 0 in
    let rest = read_slots-Taken k t buf (i + 1) c1 (omega arith) in
    record {
      copied = λ j p q. elim (dec_lt i j) [
        | no first ↦
            let e : j ≡ i = omega arith in
            rw e (
              rest.others (buf + i) (omega arith) (omega arith)
              ∙ store32_same m1 (slot c t i) 0 (buf + i) (omega arith)
              ∙ ground arith)
        | yes later ↦
            rest.copied j (omega arith) (omega arith)
            ∙ ap (λ w. w % 0x100)
                (load32-eq m c1.screen.mem (slot c t j)
                  (λ a lo hi. store32_same m1 (slot c t i) 0 a (omega arith) ∙ ground arith))
      ];
      others = λ a p q.
          rest.others a (omega arith) (omega arith)
          ∙ store32_same m1 (slot c t i) 0 a (omega arith)
          ∙ ground arith;
      kb = rest.kb;
      x = rest.x;
      y = rest.y;
      ready = rest.ready;
      num_chars = rest.num_chars;
      active = rest.active;
    }

-- A ready line of a well-formed console is read, into a buffer apart from the buffers and the
-- screen, for less than 1023 bytes: the caller gets the low bytes of the first `nbytes + 1` words,
-- one more than it asked for, that number is returned, and the terminal is empty again.
pub terminal_read-ready :
    (c : Console) (t : ℕ) (buf : Addr) (nbytes : ℕ)
    → IsConsole c t
    → c.ready t ≡ 1
    → nbytes < 1023
    → Apart buf (nbytes + 1) c.kb (4 * 3070)
    → Apart buf (nbytes + 1) video 4000
    → (c' : Console) × (terminal_read t buf (pos nbytes) c ≡ some (pos (nbytes + 1), c'))
      × ((i : ℕ) → i ≤ nbytes → c'.screen.mem (buf + i) ≡ word c t i % 0x100)
      × (c'.num_chars t ≡ 0)
      × (c'.ready t ≡ 0)
unfolding terminal_read
terminal_read-ready c t buf nbytes is ready small room off =
    let taken = read_slots-Taken (nbytes + 1) t buf 0 c (omega (arith, is.terminal)) in
    let c1 = read_slots (nbytes + 1) t buf 0 c in
    let on : c1.screen.y c.active_terminal < 25 = rw (taken.y, is.active) (is.cursor.row) in
    let keeps = new_line-Keeps c.active_terminal c1.screen on in
    let r : (c.ready t == 0) ≡ false = ground arith in
    (
      record c1 {
        screen = new_line c.active_terminal c1.screen;
        num_chars = update c1.num_chars t 0;
        ready = update c1.ready t 0;
      },
      rw r,
      λ i h. keeps.outside (buf + i) (omega arith) ∙ taken.copied i (omega arith) (omega arith),
      ground arith,
      ground arith,
    )

-- A line of up to 1022 characters that is typed into an empty terminal and ended by Enter is what
-- a read of at least that many bytes, and less than 1023, gives, into a buffer apart from the
-- buffers and the screen: its characters, and NULs behind them.
pub terminal_read-typed :
    (c : Console) (t : ℕ) (text : ℕ → ℕ) (n : ℕ) (buf : Addr) (nbytes : ℕ)
    → IsConsole c t
    → c.num_chars t ≡ 0
    → IsText text n
    → n ≤ nbytes
    → nbytes < 1023
    → Apart buf (nbytes + 1) c.kb (4 * 3070)
    → Apart buf (nbytes + 1) video 4000
    → (c' : Console) × (terminal_read t buf (pos nbytes) (handle_enter (type_text n t text 0 c))
        ≡ some (pos (nbytes + 1), c'))
      × ((i : ℕ) → i ≤ nbytes → c'.screen.mem (buf + i) ≡ (if ltb i n then text i else 0))
      × (c'.num_chars t ≡ 0)
      × (c'.ready t ≡ 0)
terminal_read-typed c t text n buf nbytes is empty ok fits small room off =
    let c1 = type_text n t text 0 c in
    let start : IsLine c.kb c t text 0 = record {
      console = is;
      place = refl;
      count = empty;
      words = λ i h. absurd (omega arith);
    } in
    let line = type_text-IsLine n t text 0 c (λ i h. ok i (omega arith)) (omega arith) start in
    let count : c1.num_chars t ≡ n = line.count ∙ omega arith in
    let c2 = handle_enter c1 in
    let (is2, kb2) = handle_enter-IsConsole c1 t line.console in
    let entered =
      λ (i : ℕ). handle_enter-words c1 t t i line.console.active (omega (arith, count)) in
    let place : c2.kb ≡ c.kb = kb2 ∙ line.place in
    let (c', call, bytes, num, free) =
      terminal_read-ready c2 t buf nbytes is2 (entered 0).1 small (omega arith) off in
    (
      c',
      call,
      (λ i h. bytes i h ∙ ground (arith, (entered i).0, count, line.words i, ok i)),
      num,
      free,
    )
