-- ===== src/Screen/Cursor.antt =====
-- The cursor stays on the screen, and the screen's functions write nothing but video memory.
use gyarad_os.Base.{
  ℕ, ◌+◌, ◌-◌, ◌%◌, ◌^◌, ◌≤◌, ◌<◌, ◌≡◌, ◌≢◌, ◌⊎◌, ◌∙◌, refl, ◌||◌, arith, ◌==◌, Bool-cases, inl,
  inr, List, [], ◌∷◌,
}
use gyarad_os.Machine.Memory.{Addr}
use gyarad_os.Screen.{
  Screen, video, cell, put_cell, update, update_cursor, new_line, int_rem, int_quot, put_char, putc,
  puts, del_last_char,
}
use gyarad_os.Screen.Scroll.{new_line-scrolled}

-- The cursor of terminal `t` is on the screen of 80 by 25 cells.
pub record OnScreen (s : Screen) (t : ℕ) : Type 0 where
  pub col : s.x t < 80
  pub row : s.y t < 25

-- No byte outside the 4000 of the screen differs.
abbrev pub SameOutside : Screen → Screen → Type 0
SameOutside s s' = (a : Addr) → (a < video) ⊎ (video + 4000 ≤ a) → s'.mem a ≡ s.mem a

-- What each of the functions keeps.
pub record Keeps (s s' : Screen) (t : ℕ) : Type 0 where
  pub on : OnScreen s' t
  pub outside : SameOutside s s'
  pub others : (u : ℕ) → u ≢ t → (s'.x u ≡ s.x u) × (s'.y u ≡ s.y u)
  pub color : s'.text_color ≡ s.text_color

pub new_line-Keeps : (t : ℕ) (s : Screen) → s.y t < 25 → Keeps s (new_line t s) t
unfolding new_line update_cursor
new_line-Keeps t s h = elim (Bool-cases (s.y t == 24)) [
  | inl last ↦
      let (m, y, x) = new_line-scrolled t s (ground arith) in
      record {
        on = record { col = omega arith; row = omega arith };
        outside = λ a o. m a ∙ ground arith;
        others = λ u ne. ground arith;
        color = ground arith;
      }
  | inr above ↦ rw above (record {
    on = record { col = ground arith; row = ground arith };
    outside = λ a o. refl;
    others = λ u ne. ground arith;
    color = refl;
  })
]

Keeps-trans : {s u v : Screen} {t : ℕ} → Keeps s u t → Keeps u v t → Keeps s v t
Keeps-trans p q = record {
  on = q.on;
  outside = λ a o. q.outside a o ∙ p.outside a o;
  others = λ w ne. ground (arith, q.others w ne, p.others w ne);
  color = q.color ∙ p.color;
}

-- Moving the hardware cursor keeps everything.
Keeps-cursor : (s : Screen) (t row col : ℕ) → OnScreen s t → Keeps s (update_cursor row col s) t
unfolding update_cursor
Keeps-cursor s t row col on = record {
  on = record { col = on.col; row = on.row };
  outside = λ a o. refl;
  others = λ u ne. (refl, refl);
  color = refl;
}

-- A character written at the cursor, before the line is wrapped.
abbrev written : ℕ → ℕ → Screen → Screen
written t c s = record s {
  active = t;
  mem = put_cell s.mem (cell (s.y t) (s.x t)) c s.text_color;
  x = update s.x t ((s.x t + 1) % 2 ^ 32);
}

written_outside : (t c : ℕ) (s : Screen) → OnScreen s t → SameOutside s (written t c s)
written_outside t c s on a o = ground (arith, on.col, on.row)

-- The remainders at the end of `putc`, at a column and a row of the screen.
settle : ℕ → Screen → Screen
settle t w =
    let col = int_rem (w.x t) 80 in
    record w {
      x = update w.x t col;
      y = update w.y t (int_rem ((w.y t + int_quot col 80) % 2 ^ 32) 25);
    }

settle-Keeps : (t : ℕ) (w : Screen) → OnScreen w t → Keeps w (settle t w) t
unfolding settle int_rem int_quot
settle-Keeps t w on =
    let cx = on.col in
    let cy = on.row in
    record {
      on = record { col = ground arith; row = ground arith };
      outside = λ a o. refl;
      others = λ u ne. ground arith;
      color = refl;
    }

put_char-Keeps : (t c : ℕ) (s : Screen) → OnScreen s t → Keeps s (put_char t c s) t
unfolding put_char settle
put_char-Keeps t c s on =
    let w = written t c s in
    let out = written_outside t c s on in
    elim (Bool-cases (w.x t == 80)) [
      | inl full ↦
          let keeps = new_line-Keeps t w on.row in
          rw full (
            Keeps-trans
              (record {
                on = keeps.on;
                outside = λ a o. keeps.outside a o ∙ out a o;
                others = λ u ne. ground (arith, keeps.others u ne);
                color = keeps.color;
              })
              (settle-Keeps t (new_line t w) keeps.on))
      | inr room ↦
          let on' : OnScreen w t = record { col = ground (arith, on.col); row = on.row } in
          rw room (
            Keeps-trans
              (record { on = on'; outside = out; others = λ u ne. ground arith; color = refl })
              (settle-Keeps t w on'))
    ]

-- Printing a character keeps the cursor of the terminal on the screen, leaves the cursors of the
-- other terminals alone, and writes nothing outside the 4000 bytes of the screen.
pub putc-Keeps : (t c : ℕ) (s : Screen) → OnScreen s t → Keeps s (putc t c s) t
unfolding putc
putc-Keeps t c s on = elim (Bool-cases (c == 10 || c == 13)) [
  | inl line ↦
      let keeps = new_line-Keeps t s on.row in
      rw line (Keeps-trans keeps (Keeps-cursor (new_line t s) t _ _ keeps.on))
  | inr char ↦
      let keeps = put_char-Keeps t c s on in
      rw char (Keeps-trans keeps (Keeps-cursor (put_char t c s) t _ _ keeps.on))
]

-- With the cursor on the screen, printing a string of any length keeps it there, writes no memory
-- but the cells of the screen, and moves no other terminal's cursor.
pub puts-Keeps : (t : ℕ) (cs : List ℕ) (s : Screen) → OnScreen s t → Keeps s (puts t cs s) t
unfolding puts
puts-Keeps t [] s on = record {
  on = on;
  outside = λ a o. refl;
  others = λ u ne. (refl, refl);
  color = refl;
}
puts-Keeps t (c ∷ cs) s on =
    let keeps = putc-Keeps t c s on in Keeps-trans keeps (puts-Keeps t cs (putc t c s) keeps.on)

-- With the cursor on the screen and not at its top left, `del_last_char` keeps it on the screen,
-- writes no memory but the cells of the screen, and moves no other terminal's cursor.
pub del_last_char-Keeps :
    (t : ℕ) (s : Screen) → OnScreen s t → (s.x t ≢ 0) ⊎ (s.y t ≢ 0) → Keeps s (del_last_char t s) t
unfolding del_last_char update_cursor
del_last_char-Keeps t s on ne =
    let cx = on.col in
    let cy = on.row in
    elim (Bool-cases (s.x t == 0)) [
      | inl start ↦ rw start (record {
        on = record { col = ground arith; row = ground arith };
        outside = λ a o. ground arith;
        others = λ u ne. ground arith;
        color = refl;
      })
      | inr inside ↦ rw inside (record {
        on = record { col = ground arith; row = ground arith };
        outside = λ a o. ground arith;
        others = λ u ne. ground arith;
        color = refl;
      })
    ]

-- At the top left `del_last_char` leaves the screen: the row becomes -1, and the blank goes to the
-- cell before the first one of video memory.
pub del_last_char-origin :
    (t : ℕ) (s : Screen)
    → s.x t ≡ 0
    → s.y t ≡ 0
    → ((del_last_char t s).y t ≡ 2 ^ 32 - 1) × ((del_last_char t s).mem (video - 2) ≡ b' ')
unfolding del_last_char update_cursor
del_last_char-origin t s ex ey = ground arith
