-- ===== src/Client/InOpen.antt =====
-- The commands that the user enters in OPEN, up to their functions: src/main.c with src/state_open.c.
use ipk_projekt.Memory.{Bytes}
use ipk_projekt.Base.{codes, take, ◌++◌, ◌∷◌, [], same_text, ◌≡◌, ap, arith}
use ipk_projekt.Client.{
  main_round, run_line, set_unprocessed_line, run_token, select_command, chop, front,
}
use ipk_projekt.World.{World, Config, state_open}
use ipk_projekt.States.{state_logic, state_open_logic, run_command, help, rename, join}
use ipk_projekt.Commands.{
  strtok, next_token, cmd_join, cmd_rename, drop_spaces, cmd_help, after_token, token,
}
use ipk_projekt.Client.Entry.{front-append}
use ipk_projekt.Commands.Words.{strtok_space}

abbrev pub rename_line : Bytes → Bytes
rename_line name = codes "/rename " ++ (name ++ (10 ∷ []))

abbrev pub join_line : Bytes → Bytes
join_line channel = codes "/join " ++ (channel ++ (10 ∷ []))

-- The client that takes up a command with its argument.
abbrev pub command_taken : Bytes → Bytes → World → World
command_taken line rest w = record w { unprocessed_line = take 59999 line; strtok_rest = rest }

pub help_line_lem :
    (cfg : Config) (w : World)
    → w.state ≡ state_open
    → main_round cfg (codes "/help\n") w ≡ cmd_help (command_taken (codes "/help") [] w)
unfolding main_round run_line set_unprocessed_line run_token state_logic state_open_logic
    run_command select_command same_text chop front strtok next_token drop_spaces token after_token
help_line_lem cfg w open' =
    ap (λ s. state_logic s help cfg (command_taken (codes "/help") [] w)) open'

pub rename_line_lem :
    (cfg : Config) (name : Bytes) (w : World)
    → w.state ≡ state_open
    → main_round cfg (rename_line name) w
      ≡ cmd_rename (command_taken (codes "/rename " ++ name) name w)
unfolding main_round run_line set_unprocessed_line run_token state_logic state_open_logic
    run_command select_command same_text chop
rename_line_lem cfg name w open' =
    let line : Bytes = codes "/rename " ++ name in
    rw
      (
        front-append 47 (codes "rename " ++ name) 10,
        strtok_space (codes "/rename") name (record w { unprocessed_line = take 59999 line })
            (omega arith) (omega arith),
      )
      (ap (λ s. state_logic s rename cfg (command_taken line name w)) open')

pub join_line_lem :
    (cfg : Config) (channel : Bytes) (w : World)
    → w.state ≡ state_open
    → main_round cfg (join_line channel) w
      ≡ cmd_join cfg (command_taken (codes "/join " ++ channel) channel w)
unfolding main_round run_line set_unprocessed_line run_token state_logic state_open_logic
    run_command select_command same_text chop
join_line_lem cfg channel w open' =
    let line : Bytes = codes "/join " ++ channel in
    rw
      (
        front-append 47 (codes "join " ++ channel) 10,
        strtok_space (codes "/join") channel (record w { unprocessed_line = take 59999 line })
            (omega arith) (omega arith),
      )
      (ap (λ s. state_logic s join cfg (command_taken line channel w)) open')
