-- ===== src/Radio/Device.antt =====
-- The interrupt handler, the work queue and the file operations of Driver/sx1278.c. `none` is an access
-- out of bounds, through a null pointer, or a wait that has used its fuel.
use gateway_v.Base.{
  ℕ, ◌+◌, ◌-◌, ◌%◌, ◌^◌, true, false, not, Option, none, some, ◌++◌, ltb, leb, ◌==◌, if◌then◌else◌,
  ◌>>=◌, length, take, drop, replicate,
}
use gateway_v.Base.Word.{u8}
use gateway_v.Text.{Bytes, strlen, strncmp_eq}
use gateway_v.Packet.{packet_size}
use gateway_v.Radio.{Bus, Radio}
use gateway_v.Radio.Registers.{
  goto_mode, set_band_width, set_spreading_factor, set_coding_rate, set_sync_word, set_power,
  set_frequency, get_rssi, is_valid,
}
use gateway_v.Radio.Transfer.{transmit, receive}

abbrev cleared : Bytes
cleared = replicate packet_size 0

-- workqueue_fn: drop the gateway's own packet and a repetition of the last one, keep any other and
-- signal the registered process. strncpy copies the cache's string over the cleared buffer.
unfoldable pub workqueue_fn : {C : Type 0} → Radio C → Radio C
workqueue_fn r =
    let n = strlen r.cache_buffer in
    if strncmp_eq r.cache_buffer r.transmit_buffer n
    then record r { cache_buffer = cleared; work_pending = false }
    else if not (strncmp_eq r.cache_buffer r.receive_buffer n)
    then record r {
      receive_buffer = take n r.cache_buffer ++ drop n cleared;
      signals = elim r.task [ none ↦ r.signals | some pid ↦ r.signals + 1 ];
      work_pending = false;
    }
    else record r { cache_buffer = cleared; work_pending = false }

abbrev pub size_mod : ℕ
size_mod = 2 ^ 64

-- sx1278_read: the result, the bytes that are copied to the caller, and the new offset.
unfoldable pub read : {C : Type 0} → Radio C → ℕ → ℕ → ℕ × Bytes × ℕ
read r size offset =
    let left = (strlen r.receive_buffer + size_mod - offset % size_mod) % size_mod in
    let to_read = if ltb left size then left else size in
    (to_read, take (strlen r.receive_buffer) r.receive_buffer, offset + to_read)

module _ (bus : Bus) where
  open bus use {Chip}

  -- get_message
  unfoldable pub get_message : Radio Chip → Radio Chip
  get_message r =
      let (count, buff, r1) = receive bus r r.cache_buffer packet_size in
      record r1 { cache_buffer = buff; work_pending = if count == 0 then r1.work_pending else true }

  -- sx1278_write of the caller's bytes, which copy_from_user puts into the 60 bytes of the buffer.
  unfoldable pub write : ℕ → Radio Chip → Bytes → Option (ℕ × Radio Chip)
  write fuel r user =
      if leb (length user) packet_size
      then (let filled = user ++ drop (length user) cleared in
          transmit bus fuel (record r { transmit_buffer = filled }) filled (u8 (strlen filled)) 1000
          >>= λ (r1, ok). some (length user, r1))
      else none

  -- The commands of sx1278_ioctl, each with the value that copy_from_user reads.
  pub data Command : Type 0 where
    register_signal : ℕ → Command
    cancel_signal : Command
    rssi : Command
    to_mode : ℕ → Command
    band_width : ℕ → Command
    spreading_factor : ℕ → Command
    coding_rate : ℕ → Command
    sync_word : ℕ → Command
    power : ℕ → Command
    frequency : ℕ → Command
    status : Command

  -- sx1278_ioctl where the copies to and from the caller succeed. Cancelling reads task->pid first.
  unfoldable pub ioctl : Radio Chip → Command → Option (Radio Chip)
  ioctl r (register_signal pid) = some (record r { task = some pid })
  ioctl r cancel_signal = r.task >>= λ pid. some (record r { task = none })
  ioctl r rssi = let (x, r1) = get_rssi bus r in some (record r1 { rssi_value = x })
  ioctl r (to_mode m) = some (goto_mode bus (record r { current_mode = m }) m)
  ioctl r (band_width b) = set_band_width bus (record r { band_width = b }) b
  ioctl r (spreading_factor sf) = set_spreading_factor bus (record r { spreading_factor = sf }) sf
  ioctl r (coding_rate c) = some (set_coding_rate bus (record r { coding_rate = c }) c)
  ioctl r (sync_word s) = some (set_sync_word bus r (u8 s))
  ioctl r (power p) = some (set_power bus (record r { power = p }) p)
  ioctl r (frequency f) = some (set_frequency bus r f)
  ioctl r status = let (x, r1) = is_valid bus r in some (record r1 { status = x })
