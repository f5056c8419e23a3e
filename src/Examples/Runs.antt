-- ===== src/Examples/Runs.antt =====
-- Sessions that run to their end.
use ipk_projekt.World.{World, Arrival}
use ipk_projekt.Base.{List, ℕ, Result, ◌∷◌, [], codes, ◌++◌}
use ipk_projekt.Client.{run, input}
use Prim.Native.Nat.{ℕ}
use ipk_projekt.Memory.{Bytes}
use ipk_projekt.Examples.Setup.{udp_config, started}

abbrev arrive : ℕ → Bytes → Arrival
arrive port payload = record { sender_port = port; payload = payload }

-- The server confirms AUTH at once and accepts it while the client still waits.
abbrev accepting : List (List Arrival)
accepting =
    (arrive 4567 (0 ∷ 0 ∷ 0 ∷ [])
      ∷ arrive 50123 (1 ∷ 0 ∷ 7 ∷ 1 ∷ 0 ∷ 0 ∷ (codes "hi" ++ (0 ∷ [])))
      ∷ [])
    ∷ []

session : Result (Unit {0}) × World
unfolding run
session = run udp_config (input (codes "/auth u s nick\n") ∷ []) (started accepting)
