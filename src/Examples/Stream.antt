-- ===== src/Examples/Stream.antt =====
-- The theorems on the receiving side of src/network_tcp.c at concrete lines and chunks, and a whole
-- session over src/main.c.
use ipk_projekt.Memory.{Bytes}
use ipk_projekt.World.{LineBuffer, AppState, World, state_auth, continue, state_open, pure}
use ipk_projekt.TcpListener.{process_tcp_message, take_chunks, take_chunk}
use ipk_projekt.Base.{
  List, Result, codes, ◌∷◌, ◌++◌, true, arith, [], replicate, ◌≡◌, refl, ok, if◌then◌else◌, ltb,
  exits, inl, exit_success, fault,
}
use ipk_projekt.TcpListener.Replies.{IsContent, reply_line, process_reply-process_reply_line}
use ipk_projekt.Examples.Setup.{hi, udp_config, in_state, plenty-Succeeds, hi-IsText, answering}
use ipk_projekt.Strings.{isspace}
use ipk_projekt.Handlers.{process_received_udp_message}
use ipk_projekt.TcpListener.Messages.{process_bye_line}
use ipk_projekt.Handlers.Replies.{reply_buffer}
use ipk_projekt.TcpListener.Stream.{empty, process_all, grown, take_chunks-stream}
use ipk_projekt.TcpListener.Wire.{take_chunk_split}
use ipk_projekt.Client.{Event, input, datagrams, end_of_input}

abbrev connected : AppState → World
connected s = record (in_state s) { tcp_connected = true }

abbrev two_lines : List Bytes
two_lines = codes "REPLY OK IS hi" ∷ codes "MSG FROM nick IS hi" ∷ []

abbrev head_chunk : Bytes
head_chunk = codes "REPLY OK"

abbrev tail_chunk : Bytes
tail_chunk = codes " IS hi\r\nMSG FROM nick IS hi\r\n"

take_chunks-stream_example :
    take_chunks udp_config (head_chunk ∷ tail_chunk ∷ []) (empty 0) (connected state_auth)
    ≡ continue
        (process_all udp_config two_lines (connected state_auth))
        (λ _. pure (empty (grown 0 two_lines)))
take_chunks-stream_example =
    take_chunks-stream udp_config plenty-Succeeds head_chunk (tail_chunk ∷ []) two_lines 0
      (connected state_auth) (omega arith, refl) ((omega arith, refl), tt)
      (omega arith, (omega arith, tt)) refl

pub hi-IsContent : IsContent hi
hi-IsContent = unfold isspace in (omega arith, refl, omega arith)

process_reply-process_reply_line_example :
    let udp : Result (Unit {0}) × World =
      process_received_udp_message udp_config (reply_buffer 3 1 0 hi []) 9 (in_state state_auth) in
    let tcp : Result (Unit {0}) × World =
      process_tcp_message udp_config (reply_line 1 hi) (in_state state_auth) in
    (udp.0 ≡ ok tt)
    × (tcp.0 ≡ ok tt)
    × (udp.1.printed ≡ tcp.1.printed)
    × (udp.1.state ≡ tcp.1.state)
process_reply-process_reply_line_example =
    process_reply-process_reply_line udp_config 4 3 1 0 9 hi [] (in_state state_auth) (omega arith)
      (omega arith) hi-IsText (omega arith) hi-IsContent (omega arith) (answering state_auth)
      (inl refl)

process_bye_line_example :
    process_tcp_message udp_config (codes "BYE FROM " ++ replicate 21 97) (connected state_open)
    ≡ ((if ltb 21 21 then exits exit_success else fault), connected state_open)
process_bye_line_example = process_bye_line udp_config (replicate 21 97) (connected state_open)

take_chunk_split_example :
    (b' : LineBuffer) × (continue
        (take_chunk udp_config
          (codes "MSG FROM nick IS hi" ++ (13 ∷ []))
          (empty 0)
          (connected state_open))
        (take_chunk udp_config (10 ∷ hi))
      ≡ (ok b', connected state_open))
    × (b'.text ≡ codes "MSG FROM nick IS hi\r\nhi")
take_chunk_split_example =
    take_chunk_split udp_config (codes "MSG FROM nick IS hi") hi (empty 0) (connected state_open)
      plenty-Succeeds (inl refl) (omega arith) (omega arith) (omega arith) hi-IsText

abbrev pub chat_session : List Event
chat_session =
    input (codes "/auth u secret nick\n")
    ∷ datagrams (record { sender_port = 5000; payload = reply_buffer 3 1 0 hi [] } ∷ [])
    ∷ input (codes "/join room\n")
    ∷ end_of_input
    ∷ []
