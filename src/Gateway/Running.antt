-- ===== src/Gateway/Running.antt =====
-- The invariant of the scan loop, and the events that it admits.
use gateway_v.Base.{
  ℕ, zero, suc, ◌+◌, ◌≤◌, ◌<◌, ◌≡◌, ◌≢◌, refl, Bool, true, false, Option, none, some, ◌++◌, arith,
  length, get_or, drop, replicate, if◌then◌else◌, length-append, length-drop,
}
use gateway_v.Base.Word.{IsU32}
use gateway_v.Text.{Bytes}
use gateway_v.Packet.{packet_size, data_size}
use gateway_v.Lora.{lora_receive}
use gateway_v.Node.{TimeSet, remove_device_cmd}
use gateway_v.Registry.File.{IsPrintable}
use gateway_v.Gateway.State.{World}
use gateway_v.Gateway.Request.{times_text}
use gateway_v.Gateway.Round.{Event, quiet, radio, posted, radio_and_posted, deliver_event}
use gateway_v.Gateway.Sound.{IsSound}

abbrev pub cleared : Bytes
cleared = replicate packet_size 0

-- What the driver may hold: at most 60 bytes, with a length byte below 50.
abbrev pub IsContent : Bytes → Type 0
IsContent c = (length c ≤ packet_size) × (get_or (c ++ drop (length c) cleared) 9 0 < data_size)

-- A posted request that removes no node, with an id that fits the file, and times that fit a packet.
abbrev pub IsRequest : ℕ → ℕ → TimeSet → Type 0
IsRequest request id times =
    (request ≢ remove_device_cmd)
    × IsPrintable id
    × IsU32 id
    × (length (times_text times) < data_size)

abbrev pub IsEvent : Event → Type 0
IsEvent quiet = Unit
IsEvent (radio content) = IsContent content
IsEvent (posted request id times) = IsRequest request id times
IsEvent (radio_and_posted content request id times) = IsContent content × IsRequest request id times

abbrev pub request_of : Event → ℕ
request_of quiet = 0
request_of (radio content) = 0
request_of (posted request id times) = 1
request_of (radio_and_posted content request id times) = 1

-- The requests among the next n events, and the one that is pending.
abbrev pub requests_in : ℕ → (ℕ → Event) → ℕ
requests_in zero events = 0
requests_in (suc n) events = request_of (events n) + requests_in n events

abbrev pub pending : {F : Type 0} → World F → ℕ
pending w = if w.socket_flag then 1 else 0

-- What the scan loop keeps true.
pub record IsRunning {F : Type 0} (w : World F) : Type 0 where
  pub sound : IsSound w.registry
  pub safe : w.socket_flag ≡ true → w.command.request ≢ remove_device_cmd
  pub id_printable : IsPrintable w.command.id_to_handler
  pub id_word : IsU32 w.command.id_to_handler
  pub times_fit : length (times_text w.command.user_set) < data_size
  pub content : IsContent w.rx_content
  pub unblocked : w.blocked ≡ false
  pub answers : w.answers ≡ true

pub deliver_event-IsRunning :
    {F : Type 0} (w : World F) (e : Event) → IsRunning w → IsEvent e → IsRunning (deliver_event w e)
unfolding deliver_event
deliver_event-IsRunning w quiet h v = h
deliver_event-IsRunning w (radio content) h v = record {
  sound = h.sound;
  safe = h.safe;
  id_printable = h.id_printable;
  id_word = h.id_word;
  times_fit = h.times_fit;
  content = v;
  unblocked = h.unblocked;
  answers = h.answers;
}
deliver_event-IsRunning w (posted request id times) h v = record {
  sound = h.sound;
  safe = λ e. v.0;
  id_printable = v.1;
  id_word = v.2;
  times_fit = v.3;
  content = h.content;
  unblocked = h.unblocked;
  answers = h.answers;
}
deliver_event-IsRunning w (radio_and_posted content request id times) h v = record {
  sound = h.sound;
  safe = λ e. v.1.0;
  id_printable = v.1.1;
  id_word = v.1.2;
  times_fit = v.1.3;
  content = v.0;
  unblocked = h.unblocked;
  answers = h.answers;
}

pub deliver_event-pending :
    {F : Type 0} (w : World F) (e : Event)
    → let w' = deliver_event w e in
      (w'.registry.node_count + pending w' ≤ w.registry.node_count + pending w + request_of e)
      × (w'.index ≡ w.index)
unfolding deliver_event
deliver_event-pending w quiet = (omega arith, refl)
deliver_event-pending w (radio content) = (omega arith, refl)
deliver_event-pending w (posted request id times) = (omega arith, refl)
deliver_event-pending w (radio_and_posted content request id times) = (omega arith, refl)

pub if-cases :
    {A : Type 0} (P : A → Type 0) (b : Bool) (x y : A)
    → (b ≡ true → P x)
    → (b ≡ false → P y)
    → P (if b then x else y)
if-cases P true x y hx hy = hx refl
if-cases P false x y hx hy = hy refl

-- A request that was pending paid for one node more.
pub traded :
    (n m : ℕ) (a b : Bool)
    → a ≡ false
    → b ≡ true
    → n ≤ suc m
    → n + (if a then 1 else 0) ≤ m + (if b then 1 else 0)
traded n m a b ea eb h = rw (ea, eb) (omega arith)

-- A turn's half: it returned, kept the loop's invariant and index, and made room for what it took.
pub record IsTurned {F : Type 0} (w : World F) (flag : Bool) (call : Option (World F))
    : Type 0 where
  pub after : World F
  pub returns : call ≡ some after
  pub running : IsRunning after
  pub same_index : after.index ≡ w.index
  pub flag_now : after.socket_flag ≡ flag
  pub bounded : after.registry.node_count + pending after ≤ w.registry.node_count + pending w

-- The buffer that lora_receive fills.
pub received :
    (opens : Bool) (c : Bytes)
    → IsContent c
    → let b : Bytes = elim (lora_receive opens cleared c) [ none ↦ cleared | some buff ↦ buff ] in
      (length b ≡ packet_size) × (get_or b 9 0 < data_size)
unfolding lora_receive
received true c h = (
  omega (arith, h.0, length-append c (drop (length c) cleared), length-drop (length c) cleared),
  h.1,
)
received false c h = (refl, omega arith)
