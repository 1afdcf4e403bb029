-- ===== src/Console.antt =====
-- The terminals of drivers/keyboard.c: their line buffers, and the system calls on them.
-- `keyboard_buf` is the array of the source, three times 1023 words in memory from the address `kb`
-- on, so that an index past the end of one buffer is the next one's. The interrupt flag is not part
-- of this state: each function here restores what it found.
pub mod Buffer
pub mod Lines
mod Tests
use gyarad_os.Base.{
  ℕ, zero, suc, ◌+◌, ◌-◌, ◌*◌, ◌%◌, ◌^◌, Bool, true, false, Option, none, some, ltb, ◌==◌,
  if◌then◌else◌,
}
use gyarad_os.Base.Int.{ℤ, pos, negsuc}
use gyarad_os.Machine.Memory.{Addr, Mem, poke, load32, store32}
use gyarad_os.Screen.{Screen, update, new_line, putc, del_last_char, clear_screen}
use gyarad_os.Fs.{Fs}
use gyarad_os.Fs.Calls.{autocomplete_command}
use gyarad_os.Str.{strlen}

pub record Console : Type 0 where
  pub screen : Screen
  pub kb : Addr
  -- `num_chars_in_buf` and `read_buf_ready`, by terminal
  pub num_chars : ℕ → ℕ
  pub ready : ℕ → ℕ
  pub active_terminal : ℕ
  pub prev_terminal : ℕ

-- `&keyboard_buf[term][i]`.
abbrev pub slot : Console → (term i : ℕ) → Addr
slot c term i = c.kb + 4 * (1023 * term + i)

-- `keyboard_buf[term][i] = v`.
abbrev pub put_slot : Console → (term i v : ℕ) → Console
put_slot c term i v = record c {
  screen = record (c.screen) { mem = store32 c.screen.mem (slot c term i) v };
}

-- `for(i = first; i < last; i++) keyboard_buf[term][i] = NULL`, with `k` rounds left.
unfoldable pub clear_slots : ℕ → (term i : ℕ) → Console → Console
clear_slots zero term i c = c
clear_slots (suc k) term i c = clear_slots k term (i + 1) (put_slot c term i 0)

unfoldable pub terminal_open : Console → ℤ × Console
terminal_open c =
    let c' = clear_slots 1023 c.active_terminal 0 (record c { screen = clear_screen c.screen }) in
    (
      pos 0,
      record c' {
        num_chars = update c'.num_chars c.active_terminal 0;
        ready = update c'.ready c.active_terminal 0;
      },
    )

abbrev pub terminal_close : ℤ
terminal_close = pos 0

-- The copying loop of `terminal_read`, with `k` rounds left: the word's low byte goes to the buffer.
unfoldable pub read_slots : ℕ → (term : ℕ) → (buf : Addr) → (i : ℕ) → Console → Console
read_slots zero term buf i c = c
read_slots (suc k) term buf i c =
    let m = c.screen.mem in
    let copied = record c {
      screen = record (c.screen) { mem = poke m (buf + i) (load32 m (slot c term i) % 0x100) };
    } in
    read_slots k term buf (i + 1) (put_slot copied term i 0)

-- `for(i = 0; i <= nbytes; i++)` makes one round more than `nbytes`.
abbrev pub read_rounds : ℤ → ℕ
read_rounds (pos n) = n + 1
read_rounds (negsuc n) = 0

-- `terminal_read` in the terminal `running`, past the loop that waits for `read_buf_ready`: nothing
-- is returned while it waits.
unfoldable pub terminal_read :
    (running : ℕ) → (buf : Addr) → (nbytes : ℤ) → Console → Option (ℤ × Console)
terminal_read running buf nbytes c =
    if c.ready running == 0
    then none
    else (let c1 = read_slots (read_rounds nbytes) running buf 0 c in
        let c2 = record c1 { screen = new_line c.active_terminal c1.screen } in
        some (
          pos (read_rounds nbytes),
          record c2 {
            num_chars = update c2.num_chars running 0;
            ready = update c2.ready running 0;
          },
        ))

-- `add_char_to_buffer`. '\n' goes to the screen alone, and NUL nowhere.
unfoldable pub add_char_to_buffer : (new_char term : ℕ) → Console → ℕ × Console
add_char_to_buffer new_char term c =
    if ltb (c.num_chars term) 1023
    then if new_char == 10
      then (1, record c { screen = new_line c.active_terminal c.screen })
      else if new_char == 0
      then (1, c)
      else (let c1 = put_slot c term (c.num_chars term) new_char in
          (
            1,
            record c1 {
              num_chars = update c1.num_chars term (c1.num_chars term + 1);
              screen = putc c1.active_terminal new_char c1.screen;
            },
          ))
    else (0, c)

-- The loop of `terminal_write`, with `k` rounds left: how many characters were taken.
unfoldable pub write_chars :
    ℕ → (running : ℕ) → (buf : Addr) → (i num_printed : ℕ) → Console → ℕ × Console
write_chars zero running buf i num_printed c = (num_printed, c)
write_chars (suc k) running buf i num_printed c =
    let (done, c') = add_char_to_buffer (c.screen.mem (buf + i)) running c in
    write_chars k running buf (i + 1) (if done == 0 then num_printed else num_printed + 1) c'

abbrev pub write_rounds : ℤ → ℕ
write_rounds (pos n) = n
write_rounds (negsuc n) = 0

-- The counters that it resets are those of the active terminal.
unfoldable pub terminal_write : (running : ℕ) → (buf : Addr) → (nbytes : ℤ) → Console → ℤ × Console
terminal_write running buf nbytes c =
    let (printed, c1) = write_chars (write_rounds nbytes) running buf 0 0 c in
    (
      pos printed,
      record c1 {
        num_chars = update c1.num_chars c1.active_terminal 0;
        ready = update c1.ready c1.active_terminal 0;
      },
    )

-- `handle_backspace`, and the body of the loop of `reset_curr_command`.
unfoldable pub handle_backspace : Console → Console
handle_backspace c =
    let t = c.active_terminal in
    if c.num_chars t == 0
    then c
    else (let c1 = record c {
      screen = del_last_char t c.screen;
      num_chars = update c.num_chars t (c.num_chars t - 1);
    } in
        put_slot c1 t (c1.num_chars t) 0)

-- `while(num_chars_in_buf[active_terminal] > 0)`, with a round for each character.
unfoldable pub reset_loop : ℕ → Console → Console
reset_loop zero c = c
reset_loop (suc k) c = reset_loop k (handle_backspace c)

unfoldable pub reset_curr_command : Console → Console
reset_curr_command c = reset_loop (c.num_chars c.active_terminal) c

-- The loop of `fill_curr_command`: the command's characters go to the active terminal.
unfoldable pub fill_chars : ℕ → (command : Addr) → (i : ℕ) → Console → Console
fill_chars zero command i c = c
fill_chars (suc k) command i c =
    fill_chars k command (i + 1)
      (add_char_to_buffer (c.screen.mem (command + i)) c.active_terminal c).1

unfoldable pub fill_curr_command : (command : Addr) → Console → Option Console
fill_curr_command command c = elim (strlen c.screen.mem command) [
  | none ↦ none
  | some n ↦ some (fill_chars n command 0 c)
]

-- The length of the loop `for(i = num; i <= MAX_CHARS_IN_BUF; i++)`: it writes the word behind the
-- buffer too.
unfoldable pub handle_enter : Console → Console
handle_enter c =
    let t = c.active_terminal in
    let c1 = clear_slots (1024 - c.num_chars t) t (c.num_chars t) c in
    record c1 { ready = update c1.ready t 1 }

unfoldable pub reset_term : Console → Console
reset_term c =
    let c1 = clear_slots 1023 c.active_terminal 0 c in
    record c1 {
      num_chars = update c1.num_chars c.active_terminal 0;
      screen = clear_screen c1.screen;
    }

-- `handle_tab`: the words of the buffer are read as the bytes of a string.
unfoldable pub handle_tab : Fs → Console → Option Console
handle_tab fs c = elim (autocomplete_command fs c.screen.mem (slot c c.active_terminal 0)) [
  | none ↦ none
  | some none ↦ some c
  | some (some name) ↦ fill_curr_command name (reset_curr_command c)
]
