-- ===== src/Radio/Unwinding.antt =====
-- sx1278_probe of Driver/sx1278.c give back what they took when a step fails.
use gateway_v.Base.{
  ℕ, ◌≡◌, refl, ◌≢◌, ◌⊎◌, Bool, true, false, not, ◌&&◌, Option, none, some, ◌==◌, if◌then◌else◌,
}
use gateway_v.Radio.{Bus, Radio, lora_ok, lora_not_found}
use gateway_v.Radio.Registers.{
  is_valid, goto_mode, lora_read, lora_write, set_frequency, set_power, set_ocp,
  set_spreading_factor, set_auto_ldo, set_timeout_msb_crc_on, set_low_data_rate_optimization,
}
use gateway_v.Radio.Transfer.{init, configure}
use gateway_v.Radio.Probe.{
  reset_line, dio0_line, char_device, node, receive_memory, transmit_memory, cache_memory, irq_line,
  Ledger, empty_ledger, Outcomes, Probed, probed_radio, module_init,
}

-- The calls that are checked in front of request_irq succeed, and request_irq fails.
unfoldable pub only_irq_fails : Outcomes → Bool
only_irq_fails s =
    s.allocated
    && (s.spi_set
        && (s.cdev_added
            && (s.receive_allocated
                && (s.transmit_allocated && (s.cache_allocated && not s.irq_requested)))))

-- What a module that is loaded holds, with its class or without.
abbrev pub loaded : Bool → Ledger
loaded class_created = (module_init true class_created true empty_ledger).1

abbrev IsSome {ℓ} : {A : Type ℓ} → Option A → Type 0
IsSome none = ⊥
IsSome (some a) = Unit

IsSome-if {ℓ} :
    {A : Type ℓ} (b : Bool) (x y : Option A) → IsSome x → IsSome y → IsSome (if b then x else y)
IsSome-if true x y p q = p
IsSome-if false x y p q = q

some-of-IsSome {ℓ} : {A : Type ℓ} (o : Option A) → IsSome o → (a : A) × (o ≡ some a)
some-of-IsSome none h = absurd h
some-of-IsSome (some a) h = (a, refl)

module _ (bus : Bus) where
  open bus use {Chip, spi_write_then_read}

  configure-IsSome : (c : Chip) → IsSome (configure bus (probed_radio c))
  unfolding configure probed_radio set_spreading_factor set_auto_ldo lora_read lora_write goto_mode
      set_frequency set_power set_ocp set_timeout_msb_crc_on set_low_data_rate_optimization
  configure-IsSome c = tt

  init-IsSome : (c : Chip) → IsSome (init bus (probed_radio c))
  unfolding init is_valid lora_read probed_radio
  init-IsSome c =
      let (x, c1) = spi_write_then_read c 0x42 in
      IsSome-if ((if x == 0x12 then lora_ok else lora_not_found) == lora_ok)
        (configure bus (probed_radio c1)) (some (is_valid bus (probed_radio c1)))
        (configure-IsSome c1) tt

  -- LoRa_init's accesses come to an end on the settings of sx1278_probe.
  pub init-probed_radio :
      (c : Chip) → (x : ℕ) × (r : Radio Chip) × (init bus (probed_radio c) ≡ some (x, r))
  init-probed_radio c =
      let ((x, r), e) = some-of-IsSome (init bus (probed_radio c)) (init-IsSome c) in (x, r, e)

  -- After a successful probe: what its checked calls gave is held, and of the others what they gave.
  abbrev pub Holds : Bool → Outcomes → Ledger → Type 0
  Holds class_created s l =
      (l.held reset_line ≡ s.reset_got)
      × (l.held dio0_line ≡ s.dio0_got)
      × (l.held node ≡ (s.device_created && class_created))
      × (l.held char_device ≡ true)
      × (l.held receive_memory ≡ true)
      × (l.held transmit_memory ≡ true)
      × (l.held cache_memory ≡ true)
      × (l.held irq_line ≡ true)

  -- After one that failed: nothing of a device is held, and of what calls are checked for nothing was
  -- given back that was not held, but the interrupt line where request_irq is what failed.
  abbrev pub Unwound : Outcomes → Ledger → Type 0
  Unwound s l =
      (l.held reset_line ≡ false)
      × (l.held dio0_line ≡ false)
      × (l.held node ≡ false)
      × (l.held char_device ≡ false)
      × (l.held receive_memory ≡ false)
      × (l.held transmit_memory ≡ false)
      × (l.held cache_memory ≡ false)
      × (l.held irq_line ≡ false)
      × (l.unheld char_device ≡ false)
      × (l.unheld receive_memory ≡ false)
      × (l.unheld transmit_memory ≡ false)
      × (l.unheld cache_memory ≡ false)
      × (l.unheld irq_line ≡ only_irq_fails s)

  pub record IsUnwound (class_created : Bool) (s : Outcomes) (call : Option (Probed Chip))
      : Type 0 where
    pub after : Probed Chip
    pub returns : call ≡ some after
    pub outcome :
        ((after.result ≡ 0) × Holds class_created s after.ledger)
        ⊎ ((after.result ≢ 0) × Unwound s after.ledger)

  abbrev pub outcomes_of : (a g0 g1 b c d e f g h : Bool) → Outcomes
  outcomes_of a g0 g1 b c d e f g h = record {
    allocated = a;
    reset_got = g0;
    dio0_got = g1;
    spi_set = b;
    cdev_added = c;
    device_created = d;
    receive_allocated = e;
    transmit_allocated = f;
    cache_allocated = g;
    irq_requested = h;
  }
