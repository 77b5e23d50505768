-- ===== src/Oled/Overflow.antt =====
-- The functions of Driver/ssd1306.c that leave a buffer.
use gateway_v.Base.{ℕ, ◌≡◌, refl, ◌↔◌, arith, Option, none, some, Option-cases, inl, inr}
use gateway_v.Text.{Bytes}
use gateway_v.Oled.{I2c, Oled}
use gateway_v.Oled.Info.{
  Thermal, not_opened, unreadable, content, cpu_text, thousandth, sprintf,
  get_cpu_temperature_and_print,
}

too_long : (t : ℕ) → sprintf 10 (cpu_text t) ≡ none
unfolding sprintf
too_long t = ground arith

module _ (i2c : I2c) where
  open i2c use {Panel}

  -- get_cpu_temperature_and_print writes past its ten bytes exactly when the file is read and the
  -- conversion of what it holds succeeds, whatever the temperature.
  pub get_cpu_temperature_and_print-none :
      (kstrtoint : Bytes → Option ℕ) (o : Oled Panel) (thermal : Thermal) (line : ℕ)
      → (get_cpu_temperature_and_print i2c kstrtoint o thermal line ≡ none)
        ↔ ((a : Bytes) × (t : ℕ) × (thermal ≡ content a) × (kstrtoint a ≡ some t))
  unfolding get_cpu_temperature_and_print
  get_cpu_temperature_and_print-none k o not_opened line = (λ h. cc, λ (a, t, e, f). cc)
  get_cpu_temperature_and_print-none k o unreadable line = (λ h. cc, λ (a, t, e, f). cc)
  get_cpu_temperature_and_print-none k o (content a) line = elim (Option-cases (k a)) [
    | inl e ↦ rw (get_cpu_temperature_and_print, e) (λ h. cc, λ (b, t, c, f). cc)
    | inr (t, e) ↦
        rw (get_cpu_temperature_and_print, e, too_long (thousandth t))
          (λ h. (a, t, refl, e), λ h. refl)
  ]
