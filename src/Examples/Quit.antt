-- ===== src/Examples/Quit.antt =====
-- The theorems on messages over TCP and on the end of a session at concrete inputs: src/main.c.
use ipk_projekt.Examples.Session.{tcp_config, talking}
use ipk_projekt.Memory.{c_str, Bytes}
use ipk_projekt.World.{World, state_open, not_confirmed, chat}
use ipk_projekt.Client.{run, end_of_input, interrupt, main_round}
use ipk_projekt.Ids.{scan}
use Prim.Native.String.{[]}
use ipk_projekt.Base.{[], ◌∷◌, ◌≡◌, exits, exit_failure, exit_success, arith, refl, true, codes, ok}
use ipk_projekt.Examples.Setup.{udp_config, nick, plenty-Succeeds, hi}
use ipk_projekt.Client.Quit.{bye_packet, run_quits, run_quits_silent}
use ipk_projekt.Udp.Rounds.{sent_times, counted}
use ipk_projekt.TcpListener.{receive_tcp}
use ipk_projekt.Client.TcpChat.{tcp_send_and_show}

run_quits_example :
    (w' : World) × (run udp_config (interrupt ∷ (end_of_input ∷ [])) talking
      ≡ (exits exit_success, w'))
    × (w'.sent ≡ record { to = 4; payload = bye_packet 0 nick } ∷ [])
    × (w'.printed ≡ [])
    × (w'.state ≡ state_open)
unfolding c_str
run_quits_example =
    run_quits udp_config interrupt nick plenty-Succeeds (λ _. refl) refl tt 4 4567 []
      (end_of_input ∷ []) talking (record { called = refl; small = omega arith; resolves = refl })
      (omega arith) (record { sized = refl; nonempty = omega arith }) (omega arith) refl

abbrev alone : World
alone = record talking { arrivals = [] }

run_quits_silent_example : run udp_config (end_of_input ∷ []) alone ≡ (
  exits exit_failure,
  record (sent_times 4 4 (bye_packet 0 nick) (counted alone)) { printed = not_confirmed 0 ∷ [] },
)
unfolding c_str scan
run_quits_silent_example =
    run_quits_silent udp_config end_of_input nick plenty-Succeeds (λ _. refl) refl tt 4 [] alone
      (record { called = refl; small = omega arith; resolves = refl }) refl refl

abbrev connected_talking : World
connected_talking = record talking { tcp_connected = true }

tcp_send_and_show_example :
    (packet : Bytes) × (w' : World) × (v' : World) × (main_round tcp_config
        (codes "hi\n")
        connected_talking
      ≡ (ok tt, w'))
    × (w'.tcp_sent ≡ packet ∷ [])
    × (w'.state ≡ state_open)
    × (w'.printed ≡ [])
    × (receive_tcp tcp_config packet connected_talking ≡ (ok tt, v'))
    × (v'.printed ≡ chat nick hi ∷ [])
    × (v'.state ≡ state_open)
    × (v'.line_buffer.text ≡ [])
    × (v'.tcp_sent ≡ [])
unfolding c_str
tcp_send_and_show_example =
    tcp_send_and_show tcp_config nick 104 (codes "i") 0 connected_talking connected_talking
      plenty-Succeeds (λ _. refl) refl (omega arith) (omega arith) (omega arith) refl refl refl refl
      refl
