-- ===== src/Client.antt =====
-- The client process of main.c: its threads recv_msg and send_msg, its signal handler, and the
-- connections that it accepts. `none` is a call of atoi with a null pointer.
pub mod Commands
pub mod Handshake
mod Tests
use gateway_v.Base.{
  ℕ, suc, ◌+◌, ◌-◌, Bool, true, false, Option, none, some, List, [], ◌∷◌, ◌++◌, ◌||◌, ◌==◌,
  if◌then◌else◌, ◌>>=◌, length, replicate,
}
use gateway_v.Text.{Bytes, c_string, strncmp_eq, atoi, tokens}
use gateway_v.Node.{
  TimeSet, codes, add_device_cmd, remove_device_cmd, got_sock, ctl_sock, mode_manual, mode_auto,
}
use gateway_v.Gateway.State.{DeviceCommand}

abbrev pub buffer_size : ℕ
buffer_size = 1024

-- `posted` lists the requests for which the parent process was sent SIGUSR2, and `sent` what was
-- written to the connections. `sender` and `receiver` say whether the two threads run, and `asleep` whether the
-- sender is in its sleep(1) between the write and the acknowledgement.
pub record Client : Type 0 where
  pub command : DeviceCommand
  pub ready_flag : Bool
  pub sender : Bool
  pub asleep : Bool
  pub receiver : Bool
  pub posted : List ℕ
  pub sent : List Bytes

-- token = strtok(NULL, " "), then atoi(token).
abbrev pub next_int : List Bytes → Option (ℕ × List Bytes)
next_int [] = none
next_int (token ∷ rest) = some (atoi token, rest)

-- The sixteen times of MODE_MANUAL.
unfoldable pub read_times : List Bytes → Option TimeSet
read_times l0 = next_int l0 >>= λ (a, l1). next_int l1 >>= λ (b, l2). next_int l2 >>= λ (c, l3).
    next_int l3 >>= λ (d, l4). next_int l4 >>= λ (e, l5). next_int l5 >>= λ (f, l6).
    next_int l6 >>= λ (g, l7). next_int l7 >>= λ (h, l8). next_int l8 >>= λ (i, l9).
    next_int l9 >>= λ (j, l10). next_int l10 >>= λ (k, l11). next_int l11 >>= λ (l, l12).
    next_int l12 >>= λ (m, l13). next_int l13 >>= λ (n, l14). next_int l14 >>= λ (o, l15).
    next_int l15 >>= λ (p, l16). some (record {
      h_start_0 = a;
      m_start_0 = b;
      h_stop_0 = c;
      m_stop_0 = d;
      h_start_50 = e;
      m_start_50 = f;
      h_stop_50 = g;
      m_stop_50 = h;
      h_start_75 = i;
      m_start_75 = j;
      h_stop_75 = k;
      m_stop_75 = l;
      h_start_100 = m;
      m_start_100 = n;
      h_stop_100 = o;
      m_stop_100 = p;
    })

-- kill(ppid, SIGUSR2), with the request that the parent process finds.
unfoldable pub post : Client → DeviceCommand → Client
post c command = record c { command = command; posted = c.posted ++ (command.request ∷ []) }

-- The cases that carry an id alone.
unfoldable pub recv_id : Client → ℕ → List Bytes → Option Client
recv_id c request args = next_int args >>= λ (id, rest).
    some (post c (record c.command { request = request; id_to_handler = id }))

unfoldable pub recv_manual : Client → List Bytes → Option Client
recv_manual c args = next_int args >>= λ (id, rest). read_times rest >>= λ times.
    some (post c (record c.command { request = mode_manual; id_to_handler = id; user_set = times }))

-- The switch on the first token.
unfoldable pub recv_command : Client → List Bytes → Option Client
recv_command c args0 = next_int args0 >>= λ (type, args).
    if type == add_device_cmd
    then recv_id c add_device_cmd args
    else if type == remove_device_cmd
    then recv_id c remove_device_cmd args
    else if type == mode_auto
    then recv_id c mode_auto args
    else if type == mode_manual
    then recv_manual c args
    else some c

-- RxD_Buff, cleared and read into.
abbrev pub received_buffer : Bytes → Bytes
received_buffer content = content ++ replicate (buffer_size - length content) 0

-- One turn of recv_msg; a sender that it cancels does not wake up. read gives `none` at the end of the connection and an empty text on an error;
-- `past` is the memory behind the buffer.
unfoldable pub recv_turn : Bytes → Client → Option Bytes → Option Client
recv_turn past c none = some (record c {
  command = record c.command { ack = 1 };
  sender = false;
  asleep = false;
  receiver = false;
})
recv_turn past c (some content) =
    if strncmp_eq (received_buffer content) (codes "exit") 4
    then some (record c { sender = false; asleep = false; receiver = false })
    else recv_command c (tokens (received_buffer content ++ past))

-- What send_msg does up to its sleep(1), and behind it.
unfoldable pub send_turn : Client → Client
send_turn c =
    if c.asleep
    then record c { command = record c.command { ack = 1 }; asleep = false }
    else if c.ready_flag
    then record c {
      ready_flag = false;
      asleep = true;
      sent = c.sent ++ (c_string c.command.data_to_send ∷ []);
    }
    else c

-- sig_usr for SIGUSR2.
unfoldable pub sig_usr : Client → Client
sig_usr c = record c { ready_flag = true }

-- A connection is accepted: GOT_SOCK, and the two threads are created.
unfoldable pub connect : Client → Client
connect c = record (post c (record c.command { request = got_sock })) {
  sender = true;
  receiver = true;
}

-- Both threads have been joined: CTL_SOCK.
unfoldable pub disconnect : Client → Client
disconnect c = post c (record c.command { request = ctl_sock })
