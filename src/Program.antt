-- ===== src/Program.antt =====
-- `main` of src/main.c: the start, and the loop with what the listener receives.
pub mod Session
pub mod TcpSession
use ipk_projekt.Startup.{System, start}
use ipk_projekt.Client.{Event, run}
use ipk_projekt.Memory.{Bytes}
use ipk_projekt.Base.{◌>>=◌, List, Result, ok}
use ipk_projekt.World.{World}

-- An exit before the loop, or the end of the run.
unfoldable pub main : System → List Bytes → List Event → Result (Result (Unit {0}) × World)
main system args events = do (cfg, w) ← start system args; ok (run cfg events w)
