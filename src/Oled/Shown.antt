-- ===== src/Oled/Shown.antt =====
-- What the display shows after put_data_to_screen.
use gateway_v.Base.{
  Bool-cases, inl, inr, ℕ, ◌^◌, ◌≤◌, ◌<◌, ◌≡◌, refl, ◌∙◌, arith, true, Option, none, some, ltb,
  ◌==◌, if◌then◌else◌, get_or,
}
use gateway_v.Text.{Bytes}
use gateway_v.Gateway.State.{NodeInfo}
use gateway_v.Oled.Line
use gateway_v.Oled.{I2c, Oled}
use gateway_v.Oled.Info.{
  manager_text, last_id_text, brightness_text, mode_text, print_row, show_lastest_node_info,
}
use gateway_v.Oled.Device.{oled_ioctl, put_data_to_screen}
use gateway_v.Oled.Glyphs.{rendered}
use gateway_v.Oled.Texts.{
  IsLine, manager_text-IsLine, last_id_text-IsLine, brightness_text-IsLine, mode_text-IsLine,
}
use gateway_v.Oled.Painting.{IsDisplay}
use gateway_v.Oled.Rows.{print_row-with_row, with_row}

-- The text of a row about a node.
unfoldable pub row_text : NodeInfo → ℕ → Option Bytes
row_text node r =
    if r == Line.number_of_node
    then some (manager_text node.node_count)
    else if r == Line.last_id_handled
    then some (last_id_text node.id)
    else if r == Line.brightness
    then some (brightness_text node.illuminance)
    else if r == Line.mode
    then some (mode_text node.mode)
    else none

-- The memory f with a row's text: its columns and then zeros up to column 119.
abbrev pub shown_text : Option Bytes → ℕ → ℕ → ℕ
shown_text none c old = old
shown_text (some text) c old = if ltb c 120 then get_or (rendered text) c 0 else old

-- The memory f with the texts about a node.
unfoldable pub node_screen : NodeInfo → (ℕ → ℕ → ℕ) → ℕ → ℕ → ℕ
node_screen node f r c = shown_text (row_text node r) c (f r c)

pub record IsShowable (node : NodeInfo) : Type 0 where
  pub count : node.node_count < 100000
  pub id_positive : node.id < 2 ^ 31
  pub light : node.illuminance < 256

shown_row :
    (row : ℕ) (text : Bytes) (f : ℕ → ℕ → ℕ) (r c : ℕ)
    → with_row row text f r c ≡ shown_text (if r == row then some text else none) c (f r c)
unfolding with_row
shown_row row text f r c = elim (Bool-cases (r == row)) [ inl e ↦ rw e refl | inr e ↦ rw e refl ]

rows-shown :
    (s t u v : Bytes) (f : ℕ → ℕ → ℕ) (r c : ℕ)
    → with_row 7 v (with_row 6 u (with_row 5 t (with_row 4 s f))) r c
      ≡ shown_text
          (if r == 4
            then some s
            else if r == 5
            then some t
            else if r == 6
            then some u
            else if r == 7
            then some v
            else none)
          c
          (f r c)
rows-shown s t u v f r c =
    let at7 = shown_row 7 v (with_row 6 u (with_row 5 t (with_row 4 s f))) r c in
    let at6 = shown_row 6 u (with_row 5 t (with_row 4 s f)) r c in
    let at5 = shown_row 5 t (with_row 4 s f) r c in
    rw (at7, at6, at5, shown_row 4 s f r c) (ground arith)

rows-node_screen :
    (node : NodeInfo) (f : ℕ → ℕ → ℕ) (r c : ℕ)
    → with_row 7
        (mode_text node.mode)
        (with_row 6
          (brightness_text node.illuminance)
          (with_row 5 (last_id_text node.id) (with_row 4 (manager_text node.node_count) f)))
        r
        c
      ≡ node_screen node f r c
unfolding node_screen row_text
rows-node_screen node f r c =
    rows-shown (manager_text node.node_count) (last_id_text node.id)
      (brightness_text node.illuminance) (mode_text node.mode) f r c

with_row-congr :
    (row : ℕ) (text : Bytes) (f g : ℕ → ℕ → ℕ)
    → ((r c : ℕ) → f r c ≡ g r c)
    → (r c : ℕ) → with_row row text f r c ≡ with_row row text g r c
unfolding with_row
with_row-congr row text f g h r c = rw (h r c) refl

module _ (i2c : I2c) (d : IsDisplay i2c) where
  open i2c use {Panel}
  open d use {cell, IsReady}

  -- One row more of a memory.
  module _ (row : ℕ) (text : Bytes) (k : row ≤ 7) (l : IsLine text) where
    print_row-next :
        (o : Oled Panel) (f : ℕ → ℕ → ℕ)
        → IsReady o.panel
        → ((r c : ℕ) → cell o.panel r c ≡ f r c)
        → (o1 : Oled Panel) × (print_row i2c o row text ≡ some o1)
          × IsReady o1.panel
          × ((r c : ℕ) → cell o1.panel r c ≡ with_row row text f r c)
    print_row-next o f a h =
        let (o1, e, a1, h1) = print_row-with_row i2c d o row text a k l.short l.printable in
        (o1, e, a1, λ r c. h1 r c ∙ with_row-congr row text (cell o.panel) f h r c)

  -- On a display that is ready for data, put_data_to_screen of a node with fewer than 100000 nodes, an id
  -- below 2 ^ 31 and a brightness of one byte returns 0 and leaves the display ready, with the texts about
  -- the node in the rows 4 to 7 and the rest of its memory as it was.
  pub put_data_to_screen-node_screen :
      (o : Oled Panel) (node : NodeInfo)
      → IsReady o.panel
      → IsShowable node
      → (o1 : Oled Panel) × (put_data_to_screen i2c o true node ≡ some (0, o1))
        × IsReady o1.panel
        × ((r c : ℕ) → cell o1.panel r c ≡ node_screen node (cell o.panel) r c)
  unfolding put_data_to_screen oled_ioctl show_lastest_node_info
  put_data_to_screen-node_screen o node a h =
      let (o1, e1, a1, h1) =
        print_row-next Line.number_of_node (manager_text node.node_count) (omega arith)
          (manager_text-IsLine node.node_count h.count) o (cell o.panel) a (λ r c. refl) in
      let (o2, e2, a2, h2) =
        print_row-next Line.last_id_handled (last_id_text node.id) (omega arith)
          (last_id_text-IsLine node.id h.id_positive) o1
          (with_row 4 (manager_text node.node_count) (cell o.panel)) a1 h1 in
      let (o3, e3, a3, h3) =
        print_row-next Line.brightness (brightness_text node.illuminance) (omega arith)
          (brightness_text-IsLine node.illuminance h.light) o2
          (with_row 5 (last_id_text node.id)
            (with_row 4 (manager_text node.node_count) (cell o.panel)))
          a2 h2 in
      let (o4, e4, a4, h4) =
        print_row-next Line.mode (mode_text node.mode) (omega arith) (mode_text-IsLine node.mode) o3
          (with_row 6 (brightness_text node.illuminance) (
            with_row 5 (last_id_text node.id)
              (with_row 4 (manager_text node.node_count) (cell o.panel))))
          a3 h3 in
      (o4, rw (e1, e2, e3, e4) refl, a4, λ r c. h4 r c ∙ rows-node_screen node (cell o.panel) r c)
