-- ===== src/Client/Tests.antt =====
-- Runs of the client process, and its theorems at concrete states.
use gateway_v.Base.{◌≡◌, ◌⊎◌, refl, true, false, some, [], ◌∷◌, All, arith, inl, inr}
use gateway_v.Base.Word.{IsU32}
use gateway_v.Text.{strncmp_eq}
use gateway_v.Node.{TimeSet, codes, zero_times, mode_manual, remove_device_cmd}
use gateway_v.Gateway.Request.{join_ints}
use gateway_v.Client.{Client, recv_turn, send_turn, sig_usr, post}
use gateway_v.Client.Commands.{times_list, recv_turn-id, recv_turn-manual}
use gateway_v.Client.Handshake.{
  Steps, start, step, sends, receives, Written, IsHandedOver, steps-IsHandedOver,
}

abbrev connected : Client
connected = record {
  command = record {
    request = 2;
    ack = 0;
    data_to_send = codes "5 7";
    id_to_handler = 0;
    user_set = zero_times;
  };
  ready_flag = false;
  sender = true;
  asleep = false;
  receiver = true;
  posted = [];
  sent = [];
}

abbrev evening : TimeSet
evening = record zero_times { h_start_50 = 18; m_start_50 = 30; h_stop_50 = 23; m_stop_50 = 59 }

evening-IsU32 : All IsU32 (times_list evening)
evening-IsU32 = omega arith

-- "exit" ends both threads: nobody is left to acknowledge a text.
exit_ends :
    recv_turn [] (sig_usr connected) (some (codes "exit"))
    ≡ some (record (sig_usr connected) { sender = false; receiver = false })
unfolding recv_turn sig_usr strncmp_eq
exit_ends = refl

recv_turn-id_example :
    recv_turn [] connected (some (join_ints remove_device_cmd (20021164 ∷ [])))
    ≡ some (
        post connected
          (record connected.command { request = remove_device_cmd; id_to_handler = 20021164 }))
recv_turn-id_example =
    recv_turn-id [] connected remove_device_cmd 20021164 (omega arith) (inr (inl refl))

recv_turn-manual_example :
    recv_turn [] connected (some (join_ints mode_manual (20021164 ∷ times_list evening)))
    ≡ some (
        post connected (record connected.command {
          request = mode_manual;
          id_to_handler = 20021164;
          user_set = evening;
        }))
recv_turn-manual_example =
    recv_turn-manual [] connected 20021164 evening (omega arith) evening-IsU32

-- A command comes in while the text waits; then the sender runs.
abbrev removing : Client
removing =
    post (sig_usr connected)
      (record connected.command { request = remove_device_cmd; id_to_handler = 20021164 })

run : Steps (sig_usr connected) false (send_turn removing)
unfolding sig_usr post
run =
    step
      (step start (
        receives [] (some (join_ints remove_device_cmd (20021164 ∷ []))) refl (
          recv_turn-id [] (sig_usr connected) remove_device_cmd 20021164 (omega arith)
            (inr (inl refl)))))
      (sends refl)

steps-IsHandedOver_example :
    IsHandedOver (sig_usr connected) false (send_turn removing)
    × Written (sig_usr connected) (send_turn (send_turn (send_turn removing)))
    × (((send_turn (send_turn (send_turn removing))).command.ack ≡ 1) ⊎ (false ≡ true))
steps-IsHandedOver_example = steps-IsHandedOver connected (send_turn removing) false run
