-- ===== src/Commands/Moves.antt =====
-- The moves of the application, and the rules by which a command of src/cmd_*.c is followed from a state.
use ipk_projekt.Commands.{unless, or_print}
use ipk_projekt.World.{
  AppState, Output, Prog, state_start, state_open, state_auth, print, World, ◌>>◌, state_join,
  ◌>>=◌, continue,
}
use ipk_projekt.Handlers.Moves.{ByServer}
use ipk_projekt.Memory.{Bytes}
use ipk_projekt.Base.{
  Bool, Option, if◌then◌else◌, ◌≡◌, true, subst, ok, false, Result, some, sym, none, exits, fault,
}
use ipk_projekt.World.Keeps.{Keeps, print-Keeps, Arrays, Invariant, SoundIn, At}
use ipk_projekt.States.{Command, auth, join}

-- The moves of the application while one line of the user is run, or none: those of the server, `/auth` in
-- START if that is the command, and `/join` in OPEN if that is.
pub data Moves : Option Command → AppState → AppState → Type 0 where
  done : {c : Option Command} {a : AppState} → Moves c a a
  by_server : {c : Option Command} {a b d : AppState} → Moves c a b → ByServer b d → Moves c a d
  log_in :
      {c : Option Command} {a : AppState}
      → c ≡ some auth
      → Moves c a state_start
      → Moves c a state_auth
  change_channel :
      {c : Option Command} {a : AppState}
      → c ≡ some join
      → Moves c a state_open
      → Moves c a state_join

-- Started in the state `s` with sound arrays, a program ends with `Q`, however it ends.
pub record From (s : AppState) (Q : Invariant) {A : Type 0} (p : Prog A) : Type 0 where
  pub leads : (w : World) → w.state ≡ s → SoundIn Q.arrays w → At Q (p w).1

-- The arrays are sound, and the state is still `s`.
abbrev pub still : Arrays → AppState → Invariant
still arrays s = record { on_state = λ t. t ≡ s; arrays = arrays }

module _ (s : AppState) (Q : Invariant) (q : Q.on_state s) where
  pub Keeps-From : {A : Type 0} (p : Prog A) → Keeps Q p → From s Q p
  Keeps-From p k = record { leads = λ w e sound. k.holds w (subst Q.on_state (sym e) q, sound) }

  pub bind-From :
      {A B : Type 0} (m : Prog A) (f : A → Prog B)
      → Keeps (still Q.arrays s) m
      → ((a : A) → From s Q (f a))
      → From s Q (m >>= f)
  bind-From {A = A} {B = B} m f k later = record {
    leads = λ w e sound. go (m w) (k.holds w (e, sound));
  }
    where
      go : (r : Result A × World) → At (still Q.arrays s) r.1 → At Q (continue r f).1
      go (ok a, w) e = (later a).leads w e.0 e.1
      go (exits n, w) e = (subst Q.on_state (sym e.0) q, e.1)
      go (fault, w) e = (subst Q.on_state (sym e.0) q, e.1)

  pub seq-From :
      {A B : Type 0} (m : Prog A) (k : Prog B)
      → Keeps (still Q.arrays s) m
      → From s Q k
      → From s Q (m >> k)
  seq-From m k first later = record { leads = (bind-From m (λ _. k) first (λ _. later)).leads }

  pub if-From :
      {A : Type 0} (b : Bool) (p r : Prog A)
      → From s Q p
      → From s Q r
      → From s Q (if b then p else r)
  if-From true p r fp fr = fp
  if-From false p r fp fr = fr

  pub print-From : (line : Output) → From s Q (print line)
  print-From line = Keeps-From (print line) (print-Keeps Q line)

  pub or_print-From :
      (message : Output) (line : Option Bytes) (next : Bytes → Prog (Unit {0}))
      → ((b : Bytes) → From s Q (next b))
      → From s Q (or_print message line next)
  or_print-From message none next later = print-From message
  or_print-From message (some b) next later = later b

  pub unless-From :
      (test : Bool) (message : Output) (next : Prog (Unit {0}))
      → From s Q next
      → From s Q (unless test message next)
  unless-From true message next later = later
  unless-From false message next later = print-From message

-- No state is set here.
