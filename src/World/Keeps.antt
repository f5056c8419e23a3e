-- ===== src/World/Keeps.antt =====
-- Rules for what a program keeps, however it ends: a property of the application's state, and one of
-- the arrays that it writes.
use ipk_projekt.World.{
  World, Prog, continue, ◌>>=◌, ◌>>◌, AppState, through, skip, get, lift, Output, print, exit,
}
use ipk_projekt.Base.{
  Bool, Result, if◌then◌else◌, ok, Option, true, exits, some, false, fault, none, ℕ, ◌+◌, ◌≡◌,
  replicate,
}
use ipk_projekt.Memory.{Bytes, Malloc, store}
use ipk_projekt.Ids.{Confirmed, Seen, add_confirmed_msg_id, is_message_duplicate}

-- A property of `display_name`, `recv_buffer` and the two tables of ids that each write to them keeps.
pub record Arrays : Type 1 where
  pub Sound : Bytes → Bytes → Confirmed → Seen → Type 0
  pub count_message_lem :
      (d r : Bytes) (c : Confirmed) (s : Seen)
      → Sound d r c s
      → Sound d r (record c { index = c.index + 1 }) s
  pub add_confirmed_lem :
      (malloc : Malloc) (id : ℕ) (d r : Bytes) (c c' : Confirmed) (s : Seen)
      → add_confirmed_msg_id malloc c id ≡ ok c'
      → Sound d r c s
      → Sound d r c' s
  pub duplicate_lem :
      (malloc : Malloc) (id : ℕ) (d r : Bytes) (c : Confirmed) (s s' : Seen) (old : Bool)
      → is_message_duplicate malloc s id ≡ ok (s', old)
      → Sound d r c s
      → Sound d r c s'
  pub set_display_name_lem :
      (text d d' r : Bytes) (c : Confirmed) (s : Seen)
      → store (replicate 20 0) 0 text ≡ ok d'
      → Sound d r c s
      → Sound d' r c s
  pub fill_buffer_lem :
      (offset : ℕ) (bytes d r r' : Bytes) (c : Confirmed) (s : Seen)
      → store r offset bytes ≡ ok r'
      → Sound d r c s
      → Sound d r' c s

-- Nothing is said of the arrays.
abbrev pub any_arrays : Arrays
any_arrays = record {
  Sound = λ d r c s. Unit {0};
  count_message_lem = λ d r c s h. h;
  add_confirmed_lem = λ malloc id d r c c' s e h. h;
  duplicate_lem = λ malloc id d r c s s' old e h. h;
  set_display_name_lem = λ text d d' r c s e h. h;
  fill_buffer_lem = λ offset bytes d r r' c s e h. h;
}

pub record Invariant : Type 1 where
  pub on_state : AppState → Type 0
  pub arrays : Arrays

abbrev pub SoundIn : Arrays → World → Type 0
SoundIn arrays w = arrays.Sound w.display_name w.recv_buffer w.confirmed w.seen

abbrev pub At : Invariant → World → Type 0
At Q w = Q.on_state w.state × SoundIn Q.arrays w

pub record Keeps (Q : Invariant) {A : Type 0} (p : Prog A) : Type 0 where
  pub holds : (w : World) → At Q w → At Q (p w).1

module _ (Q : Invariant) where
  continue-Keeps :
      {A B : Type 0} (r : Result A × World) (f : A → Prog B)
      → At Q r.1
      → ((a : A) → Keeps Q (f a))
      → At Q (continue r f).1
  continue-Keeps (ok a, w) f q k = (k a).holds w q
  continue-Keeps (exits n, w) f q k = q
  continue-Keeps (fault, w) f q k = q

  pub bind-Keeps :
      {A B : Type 0} (m : Prog A) (f : A → Prog B)
      → Keeps Q m
      → ((a : A) → Keeps Q (f a))
      → Keeps Q (m >>= f)
  bind-Keeps m f km kf = record { holds = λ w q. continue-Keeps (m w) f (km.holds w q) kf }

  pub seq-Keeps :
      {A B : Type 0} (m : Prog A) (k : Prog B) → Keeps Q m → Keeps Q k → Keeps Q (m >> k)
  seq-Keeps m k km kk = record {
    holds = λ w q. continue-Keeps (m w) (λ _. k) (km.holds w q) (λ _. kk);
  }

  pub if-Keeps :
      {A : Type 0} (b : Bool) (p r : Prog A) → Keeps Q p → Keeps Q r → Keeps Q (if b then p else r)
  if-Keeps true p r kp kr = kp
  if-Keeps false p r kp kr = kr

  pub through-Keeps : {A : Type 0} (r : Result (Option A)) → Keeps Q (through r)
  through-Keeps (ok (some a)) = record { holds = λ w q. q }
  through-Keeps (ok none) = record { holds = λ w q. q }
  through-Keeps (exits n) = record { holds = λ w q. q }
  through-Keeps fault = record { holds = λ w q. q }

  pub lift-Keeps : {A : Type 0} (r : Result A) → Keeps Q (lift r)
  lift-Keeps r = record { holds = λ w q. q }

  pub print-Keeps : (line : Output) → Keeps Q (print line)
  print-Keeps line = record { holds = λ w q. q }

  pub skip-Keeps : Keeps Q skip
  skip-Keeps = record { holds = λ w q. q }

  pub exit-Keeps : (status : ℕ) → Keeps Q (exit status)
  exit-Keeps status = record { holds = λ w q. q }

  pub get-Keeps : Keeps Q get
  get-Keeps = record { holds = λ w q. q }

  -- One of two worlds.
  pub if-At :
      {A : Type 0} (b : Bool) (x y : Result A × World)
      → At Q x.1
      → At Q y.1
      → At Q (if b then x else y).1
  if-At true x y p q = p
  if-At false x y p q = q
