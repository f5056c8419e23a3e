-- ===== src/States.antt =====
-- The routines of the application's states in src/state_start.c, src/state_auth.c, src/state_open.c
-- and src/state_join.c. A `cmd_ptr` is one of the five commands, so that the branch "unknown input"
-- of each routine is never taken.
use ipk_projekt.World.{
  Config, Prog, ◌>>◌, print, set_state, not_authenticated_join, already_authenticated, AppState,
  state_auth, already_joining, not_authenticated_msg, msg_while_joining, state_start, state_open,
  state_join,
}
use ipk_projekt.Commands.{cmd_auth, cmd_join, cmd_rename, cmd_help, cmd_msg}

pub data Command : Type 0 where
  auth join rename help msg : Command

-- `cmd()`
unfoldable pub run_command : Command → Config → Prog (Unit {0})
run_command auth cfg = cmd_auth cfg
run_command join cfg = cmd_join cfg
run_command rename cfg = cmd_rename
run_command help cfg = cmd_help
run_command msg cfg = cmd_msg cfg

unfoldable pub state_start_logic : Command → Config → Prog (Unit {0})
state_start_logic auth cfg = do set_state state_auth; run_command auth cfg
state_start_logic join cfg = print not_authenticated_join
state_start_logic rename cfg = run_command rename cfg
state_start_logic help cfg = run_command help cfg
state_start_logic msg cfg = print not_authenticated_msg

unfoldable pub state_auth_logic : Command → Config → Prog (Unit {0})
state_auth_logic auth cfg = run_command auth cfg
state_auth_logic join cfg = print not_authenticated_join
state_auth_logic rename cfg = run_command rename cfg
state_auth_logic help cfg = run_command help cfg
state_auth_logic msg cfg = print not_authenticated_msg

unfoldable pub state_open_logic : Command → Config → Prog (Unit {0})
state_open_logic auth cfg = print already_authenticated
state_open_logic join cfg = run_command join cfg
state_open_logic rename cfg = run_command rename cfg
state_open_logic help cfg = run_command help cfg
state_open_logic msg cfg = run_command msg cfg

unfoldable pub state_join_logic : Command → Config → Prog (Unit {0})
state_join_logic auth cfg = print already_authenticated
state_join_logic join cfg = print already_joining
state_join_logic rename cfg = run_command rename cfg
state_join_logic help cfg = run_command help cfg
state_join_logic msg cfg = print msg_while_joining

-- The switch on `state` in the loop of src/main.c.
unfoldable pub state_logic : AppState → Command → Config → Prog (Unit {0})
state_logic state_start cmd cfg = state_start_logic cmd cfg
state_logic state_auth cmd cfg = state_auth_logic cmd cfg
state_logic state_open cmd cfg = state_open_logic cmd cfg
state_logic state_join cmd cfg = state_join_logic cmd cfg
