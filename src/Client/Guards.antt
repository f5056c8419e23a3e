-- ===== src/Client/Guards.antt =====
-- Nobody is logged in by accident: the guards of src/state_start.c over a whole run.
use ipk_projekt.Client.{
  Event, input, chop, datagrams, tcp_bytes, end_of_input, input_error, interrupt,
}
use ipk_projekt.Base.{◌≡◌, ◌≢◌, ok, codes}
use ipk_projekt.World.{World, state_start}
use ipk_projekt.World.Keeps.{Invariant, any_arrays, Keeps}
use ipk_projekt.Commands.{token, drop_spaces}
use ipk_projekt.Memory.{Bytes}
use ipk_projekt.Commands.Moves.{still}

-- The first word of the line of an event is not `/auth`.
abbrev pub WithoutAuth : Event → Type 0
WithoutAuth (input line) =
    (text : Bytes) → chop line ≡ ok text → token (drop_spaces text) ≢ codes "/auth"
WithoutAuth end_of_input = Unit
WithoutAuth input_error = Unit
WithoutAuth interrupt = Unit
WithoutAuth (datagrams batch) = Unit
WithoutAuth (tcp_bytes chunk) = Unit

abbrev Q : Invariant
Q = still any_arrays state_start
