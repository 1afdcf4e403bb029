-- ===== src/Paging/Tests.antt =====
-- The tables of mm/paging.c at two processes.
use gyarad_os.Base.{ℕ, ◌+◌, ◌<◌, ◌≡◌, some}
use gyarad_os.Paging.{Paging, fresh_page, fresh_directory, init_new_process}
use gyarad_os.Paging.Frames.{translate, frame, init_new_process-translate}

abbrev tables : Paging
tables = record { directory = λ i. fresh_directory; table = fresh_page }

window :
    (n : ℕ)
    → n < 1022
    → translate (init_new_process n tables).1 0x0804_8000 ≡ some (frame n + 0x4_8000)
window n h = init_new_process-translate tables n 0x0804_8000 h
