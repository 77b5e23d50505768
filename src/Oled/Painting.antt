-- ===== src/Oled/Painting.antt =====
-- What the driver relies on of the SSD1306 behind the bus, by its data sheet, and how bytes that are sent
-- one after the other fill a row of the display's memory.
use gateway_v.Base.{
  ℕ, zero, suc, ◌+◌, ◌-◌, ◌≤◌, ◌<◌, ◌≡◌, ◌∙◌, arith, ◌&&◌, [], ◌∷◌, ◌++◌, ltb, leb, ◌==◌,
  if◌then◌else◌, length, length-append, get_or, get_or-append, replicate,
}
use gateway_v.Text.{Bytes}
use gateway_v.Oled.{I2c, Oled, data_mode, ssd1306_write, write_zeros}

-- Memory f with the bytes from a column of a row on.
unfoldable pub painted : ℕ → ℕ → Bytes → (ℕ → ℕ → ℕ) → ℕ → ℕ → ℕ
painted row col bytes f r c =
    if r == row && (leb col c && ltb c (col + length bytes))
    then get_or bytes (c - col) 0
    else f r c

module _ (i2c : I2c) where
  open i2c use {Panel, i2c_master_send}

  abbrev pub sent_command : Panel → ℕ → Panel
  sent_command p x = i2c_master_send p (0x00 ∷ x ∷ [])

  -- Column and page windows from a column and a page to the end of the display.
  abbrev pub sent_window : Panel → ℕ → ℕ → Panel
  sent_window p col row =
      sent_command
        (sent_command
          (sent_command (sent_command (sent_command (sent_command p 0x21) col) 127) 0x22) row)
        7

  -- `cell` is the memory by page and column, `page` and `column` the address that data goes to, and
  -- IsReady that horizontal addressing is set and no command awaits its parameters.
  pub record IsDisplay : Type 1 where
    pub cell : Panel → ℕ → ℕ → ℕ
    pub page : Panel → ℕ
    pub column : Panel → ℕ
    pub IsReady : Panel → Type 0
    pub window_ready :
        (p : Panel) (col row : ℕ)
        → IsReady p
        → col < 128
        → row ≤ 7
        → IsReady (sent_window p col row)
    pub window_page :
        (p : Panel) (col row : ℕ)
        → IsReady p
        → col < 128
        → row ≤ 7
        → page (sent_window p col row) ≡ row
    pub window_column :
        (p : Panel) (col row : ℕ)
        → IsReady p
        → col < 128
        → row ≤ 7
        → column (sent_window p col row) ≡ col
    pub window_cell :
        (p : Panel) (col row : ℕ)
        → IsReady p
        → col < 128
        → row ≤ 7
        → (r c : ℕ) → cell (sent_window p col row) r c ≡ cell p r c
    pub data_ready : (p : Panel) (x : ℕ) → IsReady p → IsReady (i2c_master_send p (0x40 ∷ x ∷ []))
    pub data_page :
        (p : Panel) (x : ℕ)
        → IsReady p
        → column p < 127
        → page (i2c_master_send p (0x40 ∷ x ∷ [])) ≡ page p
    pub data_column :
        (p : Panel) (x : ℕ)
        → IsReady p
        → column p < 127
        → column (i2c_master_send p (0x40 ∷ x ∷ [])) ≡ suc (column p)
    pub data_cell :
        (p : Panel) (x : ℕ)
        → IsReady p
        → (r c : ℕ)
        → cell (i2c_master_send p (0x40 ∷ x ∷ [])) r c
          ≡ (if r == page p && c == column p then x else cell p r c)
    pub data_burst :
        (p : Panel) (x y : ℕ) (l : Bytes)
        → i2c_master_send p (0x40 ∷ x ∷ y ∷ l)
          ≡ i2c_master_send (i2c_master_send p (0x40 ∷ x ∷ [])) (0x40 ∷ y ∷ l)

painted-append :
    (row col : ℕ) (xs ys : Bytes) (f g h : ℕ → ℕ → ℕ)
    → ((r c : ℕ) → g r c ≡ painted row col xs f r c)
    → ((r c : ℕ) → h r c ≡ painted row (col + length xs) ys g r c)
    → (r c : ℕ) → h r c ≡ painted row col (xs ++ ys) f r c
unfolding painted
painted-append row col xs ys f g h hg hh r c =
    ground (hh r c, hg r c, arith, get_or-append xs ys (c - col) 0, length-append xs ys)

module _ (i2c : I2c) (d : IsDisplay i2c) where
  open i2c use {Panel, i2c_master_send}
  open d use {cell, page, column, IsReady}

  -- The panel at an address, ready for data.
  pub record IsAt (p : Panel) (row col : ℕ) : Type 0 where
    pub ready : IsReady p
    pub at_page : page p ≡ row
    pub at_column : column p ≡ col

  -- What sending bytes from an address on makes of a panel.
  pub record IsPainted (p q : Panel) (row col : ℕ) (bytes : Bytes) : Type 0 where
    pub end : IsAt q row (col + length bytes)
    pub cells : (r c : ℕ) → cell q r c ≡ painted row col bytes (cell p) r c

  pub IsPainted-append :
      (p q s : Panel) (row col : ℕ) (xs ys : Bytes)
      → IsPainted p q row col xs
      → IsPainted q s row (col + length xs) ys
      → IsPainted p s row col (xs ++ ys)
  IsPainted-append p q s row col xs ys a b = record {
    end = record {
      ready = b.end.ready;
      at_page = b.end.at_page;
      at_column = omega (arith, b.end.at_column, length-append xs ys);
    };
    cells = painted-append row col xs ys (cell p) (cell q) (cell s) a.cells b.cells;
  }

  pub IsPainted-nil : (p : Panel) (row col : ℕ) → IsAt p row col → IsPainted p p row col []
  unfolding painted
  IsPainted-nil p row col a = record {
    end = record { ready = a.ready; at_page = a.at_page; at_column = omega (arith, a.at_column) };
    cells = λ r c. ground arith;
  }

  pub IsPainted-byte :
      (p : Panel) (row col x : ℕ)
      → IsAt p row col
      → col < 127
      → IsPainted p (i2c_master_send p (0x40 ∷ x ∷ [])) row col (x ∷ [])
  unfolding painted
  IsPainted-byte p row col x a h = record {
    end = record {
      ready = d.data_ready p x a.ready;
      at_page = d.data_page p x a.ready (omega (arith, a.at_column)) ∙ a.at_page;
      at_column =
          omega (arith, a.at_column, d.data_column p x a.ready (omega (arith, a.at_column)));
    };
    cells = λ r c. ground (d.data_cell p x a.ready r c, a.at_page, a.at_column, arith);
  }

  pub write_zeros-IsPainted :
      (n : ℕ) (o : Oled Panel) (row col : ℕ)
      → IsAt o.panel row col
      → col + n ≤ 127
      → IsPainted o.panel (write_zeros i2c n o).panel row col (replicate n 0)
  unfolding write_zeros ssd1306_write
  write_zeros-IsPainted zero o row col a h = IsPainted-nil o.panel row col a
  write_zeros-IsPainted (suc n) o row col a h =
      let q = i2c_master_send o.panel (0x40 ∷ 0 ∷ []) in
      let b = IsPainted-byte o.panel row col 0 a (omega arith) in
      IsPainted-append o.panel q (write_zeros i2c n (ssd1306_write i2c o 0 data_mode)).panel row col
        (0 ∷ []) (replicate n 0) b
        (write_zeros-IsPainted n (ssd1306_write i2c o 0 data_mode) row (col + 1) b.end
          (omega arith))

  burst-IsPainted :
      (x : ℕ) (l : Bytes) (p : Panel) (row col : ℕ)
      → IsAt p row col
      → col + suc (length l) ≤ 127
      → IsPainted p (i2c_master_send p (0x40 ∷ x ∷ l)) row col (x ∷ l)
  burst-IsPainted x [] p row col a h = IsPainted-byte p row col x a (omega arith)
  burst-IsPainted x (y ∷ l) p row col a h =
      let q = i2c_master_send p (0x40 ∷ x ∷ []) in
      let b = IsPainted-byte p row col x a (omega arith) in
      rw (d.data_burst p x y l) (
        IsPainted-append p q (i2c_master_send q (0x40 ∷ y ∷ l)) row col (x ∷ []) (y ∷ l) b
          (burst-IsPainted y l q row (col + 1) b.end (omega arith)))

  -- A burst of at least one byte.
  pub bytes-IsPainted :
      (l : Bytes) (p : Panel) (row col : ℕ)
      → 0 < length l
      → IsAt p row col
      → col + length l ≤ 127
      → IsPainted p (i2c_master_send p (0x40 ∷ l)) row col l
  bytes-IsPainted [] p row col n a h = absurd (omega arith)
  bytes-IsPainted (x ∷ l) p row col n a h = burst-IsPainted x l p row col a h
