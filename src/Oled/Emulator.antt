-- ===== src/Oled/Emulator.antt =====
-- A display for tests: the addressing commands, horizontal addressing and the memory.
use gateway_v.Base.{
  ℕ, suc, ◌+◌, ◌<◌, ◌≡◌, refl, arith, ==_of_ne, ◌&&◌, ◌||◌, [], ◌∷◌, ◌==◌, if◌then◌else◌,
}
use gateway_v.Text.{Bytes}
use gateway_v.Oled.{I2c}
use gateway_v.Oled.Painting.{IsDisplay, sent_window}

pub record Memory : Type 0 where
  pub cells : ℕ → ℕ → ℕ
  pub page : ℕ
  pub column : ℕ
  pub first_page : ℕ
  pub first_column : ℕ

pub data Emulator : Type 0 where
  idle : Memory → Emulator
  waiting : Memory → Bytes → Emulator

abbrev pub memory : Emulator → Memory
memory (idle m) = m
memory (waiting m l) = m

-- A byte of a command, with the bytes before it.
abbrev pub addressed : Memory → Bytes → ℕ → Emulator
addressed m [] x = if x == 0x21 || x == 0x22 then waiting m (x ∷ []) else idle m
addressed m (a ∷ []) x = waiting m (a ∷ x ∷ [])
addressed m (a ∷ b ∷ l) x =
    if a == 0x21
    then idle (record m { column = b; first_column = b })
    else idle (record m { page = b; first_page = b })

abbrev pub commanded : Emulator → ℕ → Emulator
commanded (idle m) x = addressed m [] x
commanded (waiting m l) x = addressed m l x

abbrev pub stored : Memory → ℕ → Memory
stored m x = record m {
  cells = λ r c. if r == m.page && c == m.column then x else m.cells r c;
  column = if m.column == 127 then m.first_column else m.column + 1;
  page = if m.column == 127 then (if m.page == 7 then m.first_page else m.page + 1) else m.page;
}

stored_address :
    (m : Memory) (x : ℕ)
    → m.column < 127
    → ((stored m x).page ≡ m.page) × ((stored m x).column ≡ suc m.column)
stored_address m x h = rw (==_of_ne m.column 127 (λ e. absurd (omega arith))) (refl, omega arith)

abbrev pub data_stored : Emulator → Bytes → Emulator
data_stored e [] = e
data_stored (idle m) (x ∷ l) = data_stored (idle (stored m x)) l
data_stored (waiting m a) (x ∷ l) = data_stored (waiting (stored m x) a) l

abbrev pub commands_sent : Emulator → Bytes → Emulator
commands_sent e [] = e
commands_sent e (x ∷ l) = commands_sent (commanded e x) l

abbrev pub emulator_send : Emulator → Bytes → Emulator
emulator_send e [] = e
emulator_send e (control ∷ l) = if control == 0x40 then data_stored e l else commands_sent e l

abbrev pub emulator : I2c
emulator = record { Panel = Emulator; i2c_master_send = emulator_send }

abbrev pub IsIdle : Emulator → Type 0
IsIdle (idle m) = Unit
IsIdle (waiting m l) = ⊥

pub window-IsIdle :
    (p : Emulator) (col row : ℕ) (a : IsIdle p) → IsIdle (sent_window emulator p col row)
window-IsIdle (idle m) col row a = tt
window-IsIdle (waiting m l) col row a = absurd a

pub window-page :
    (p : Emulator) (col row : ℕ) (a : IsIdle p)
    → (memory (sent_window emulator p col row)).page ≡ row
window-page (idle m) col row a = refl
window-page (waiting m l) col row a = absurd a

pub window-column :
    (p : Emulator) (col row : ℕ) (a : IsIdle p)
    → (memory (sent_window emulator p col row)).column ≡ col
window-column (idle m) col row a = refl
window-column (waiting m l) col row a = absurd a

pub window-cells :
    (p : Emulator) (col row : ℕ) (a : IsIdle p) (r c : ℕ)
    → (memory (sent_window emulator p col row)).cells r c ≡ (memory p).cells r c
window-cells (idle m) col row a r c = refl
window-cells (waiting m l) col row a r c = absurd a

pub data-IsIdle : (p : Emulator) (x : ℕ) (a : IsIdle p) → IsIdle (emulator_send p (0x40 ∷ x ∷ []))
data-IsIdle (idle m) x a = tt
data-IsIdle (waiting m l) x a = absurd a

pub data-page :
    (p : Emulator) (x : ℕ) (a : IsIdle p) (h : (memory p).column < 127)
    → (memory (emulator_send p (0x40 ∷ x ∷ []))).page ≡ (memory p).page
data-page (idle m) x a h = (stored_address m x h).0
data-page (waiting m l) x a h = absurd a

pub data-column :
    (p : Emulator) (x : ℕ) (a : IsIdle p) (h : (memory p).column < 127)
    → (memory (emulator_send p (0x40 ∷ x ∷ []))).column ≡ suc (memory p).column
data-column (idle m) x a h = (stored_address m x h).1
data-column (waiting m l) x a h = absurd a

pub data-cells :
    (p : Emulator) (x : ℕ) (a : IsIdle p) (r c : ℕ)
    → (memory (emulator_send p (0x40 ∷ x ∷ []))).cells r c
      ≡ (if r == (memory p).page && c == (memory p).column then x else (memory p).cells r c)
data-cells (idle m) x a r c = refl
data-cells (waiting m l) x a r c = absurd a

pub data-burst :
    (p : Emulator) (x y : ℕ) (l : Bytes)
    → emulator_send p (0x40 ∷ x ∷ y ∷ l)
      ≡ emulator_send (emulator_send p (0x40 ∷ x ∷ [])) (0x40 ∷ y ∷ l)
data-burst (idle m) x y l = refl
data-burst (waiting m a) x y l = refl

abbrev pub emulator_display : IsDisplay emulator
emulator_display = record {
  cell = λ e. (memory e).cells;
  page = λ e. (memory e).page;
  column = λ e. (memory e).column;
  IsReady = IsIdle;
  window_ready = λ p col row a h k. window-IsIdle p col row a;
  window_page = λ p col row a h k. window-page p col row a;
  window_column = λ p col row a h k. window-column p col row a;
  window_cell = λ p col row a h k. window-cells p col row a;
  data_ready = data-IsIdle;
  data_page = data-page;
  data_column = data-column;
  data_cell = data-cells;
  data_burst = data-burst;
}
