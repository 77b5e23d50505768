-- ===== src/Radio/Lifetime.antt =====
-- What is left after the module of Driver/sx1278.c was loaded, its device probed and removed, and the module
-- unloaded.
use gateway_v.Base.{◌||◌, ◌≡◌, Bool, false, Option, none, some, ◌==◌, if◌then◌else◌, ◌>>=◌}
use gateway_v.Radio.{Bus, Radio}
use gateway_v.Radio.Probe.{
  reset_line, dio0_line, char_device, node, receive_memory, transmit_memory, cache_memory, irq_line,
  numbers, class, registration, one_number, Ledger, empty_ledger, Outcomes, probe, remove,
  module_init, module_exit,
}

module _ (bus : Bus) where
  open bus use {Chip}

  -- A device that was probed is removed before the module is unloaded.
  unfoldable pub unloaded : Ledger → Option (Radio Chip) → Ledger
  unloaded l none = module_exit l
  unloaded l (some r) = module_exit (remove bus l r).0

  -- Loading the module: unloading follows where it succeeded.
  unfoldable pub lifetime : (Bool × Bool × Bool) → Outcomes → Chip → Option Ledger
  lifetime (numbers_given, class_created, registered) s chip =
      let (x, l) = module_init numbers_given class_created registered empty_ledger in
      if x == 0 then (probe bus s l chip >>= λ p. some (unloaded p.ledger p.radio)) else some l

  -- Whether any resource is held.
  abbrev anything_held : Ledger → Bool
  anything_held l =
      l.held reset_line
      || l.held dio0_line
      || l.held char_device
      || l.held node
      || l.held receive_memory
      || l.held transmit_memory
      || l.held cache_memory
      || l.held irq_line
      || l.held numbers
      || l.held class
      || l.held registration
      || l.held one_number

  abbrev IsLeft : Option Ledger → Type 0
  IsLeft m = (l : Ledger) × (m ≡ some l) × (anything_held l ≡ false)
