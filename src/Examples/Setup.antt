-- ===== src/Examples/Setup.antt =====
-- A configuration with memory and a network that delivers, and the client as it starts.
use ipk_projekt.World.{Config, World, Arrival, state_start, AppState, no_block}
use ipk_projekt.Memory.{Malloc, Bytes, IsText}
use ipk_projekt.Base.{
  false, List, ℕ, codes, some, length, replicate, ◌++◌, ◌≡◌, true, subst, [], length-replicate,
  arith, refl, ◌+◌,
}
use Prim.Native.Nat.{ℕ}
use ipk_projekt.Deserialize.RoundTrip.{Succeeds}
use ipk_projekt.Handlers.Requests.{Answering}

pub length-replicate_zero :
    (n : ℕ) (block : Bytes) → some (replicate n 0) ≡ some block → length block ≡ n
length-replicate_zero n block e =
    let e' : replicate n 0 ≡ block = cc in subst (λ b. length b ≡ n) e' (length-replicate n 0)

abbrev pub plenty : Malloc
plenty = record { alloc = λ n. some (replicate n 0); length-alloc = length-replicate_zero }

-- The address of a port is the number of its digits here.
abbrev pub udp_config : Config
udp_config = record {
  use_tcp_protocol = false;
  hostname = codes "host";
  udp_retransmissions = 3;
  getline_size = λ n. n + 120;
  malloc = plenty;
  resolve = λ _ port. some (length port);
  sendto_succeeds = λ _. true;
}

abbrev pub started : List (List Arrival) → World
started arrivals = record {
  state = state_start;
  display_name = codes "unknown" ++ replicate 13 0;
  unprocessed_line = [];
  line = no_block;
  strtok_rest = [];
  confirmed = record { ids = replicate 4 65535; index = 0; array_size = 4 };
  seen = record { ids = replicate 4 0; count = 0; array_size = 4 };
  port = codes "4567";
  has_changed_to_dyn_port = false;
  recv_buffer = replicate 64 0;
  tcp_connected = false;
  line_buffer = record { text = []; size = 0 };
  printed = [];
  sent = [];
  tcp_sent = [];
  attempts = 0;
  arrivals = arrivals;
}

pub plenty-Succeeds : Succeeds plenty
plenty-Succeeds n = (replicate n 0, refl)

abbrev pub in_state : AppState → World
in_state s = record (started []) { state = s }

pub answering : (s : AppState) → Answering udp_config 4 (in_state s)
answering s = record { roomy = plenty-Succeeds; delivers = λ _. refl; resolves = refl }

abbrev pub nick : Bytes
nick = codes "nick"

abbrev pub hi : Bytes
hi = codes "hi"

pub nick-IsText : IsText nick
nick-IsText =
    ((λ h. omega arith), ((λ h. omega arith), ((λ h. omega arith), ((λ h. omega arith), tt))))

pub hi-IsText : IsText hi
hi-IsText = ((λ h. omega arith), ((λ h. omega arith), tt))
