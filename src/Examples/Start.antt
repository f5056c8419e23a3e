-- ===== src/Examples/Start.antt =====
-- The theorems on src/args.c and the start of src/main.c at a concrete command line.
use ipk_projekt.Args.{parse_args, go_on, unfinished}
use ipk_projekt.Startup.{System, start, defaults, config}
use ipk_projekt.Base.{
  ◌+◌, List, All, codes, ◌∷◌, ◌≡◌, arith, some, length, false, [], ok, ◌≢◌, true, none, replicate,
  refl,
}
use ipk_projekt.World.{World}
use ipk_projekt.Args.Options.{
  IsProper, Choice, spelled, transport, all_chosen, server, parse_args-spelled, retransmissions,
}
use ipk_projekt.Examples.Setup.{plenty, hi, plenty-Succeeds}
use ipk_projekt.Startup.Ready.{IsReady, start-IsReady}
use ipk_projekt.Args.Termination.{parse_args_ends}

abbrev chosen_options : List Choice
chosen_options = transport false ∷ server hi ∷ retransmissions 5 ∷ []

chosen_options-IsProper : All IsProper chosen_options
chosen_options-IsProper = (tt, ((λ e. omega arith), (omega arith, tt)))

parse_args-spelled_example :
    parse_args (spelled chosen_options) defaults ≡ go_on (all_chosen chosen_options defaults)
parse_args-spelled_example = parse_args-spelled chosen_options defaults chosen_options-IsProper

parse_args_ends_example : parse_args (codes "-t" ∷ []) defaults ≢ unfinished
parse_args_ends_example = parse_args_ends (codes "-t" ∷ []) defaults

abbrev pub host : System
host = record {
  cleanup_registered = true;
  malloc = plenty;
  getline_size = λ n. n + 120;
  resolve = λ _ port. some (length port);
  sendto_succeeds = λ _. true;
  addresses = λ _ _. none;
  thread_starts = true;
  stack = replicate 64 0;
  network = [];
}

start-IsReady_example :
    (w : World) × (start host (spelled chosen_options)
      ≡ ok (config host (all_chosen chosen_options defaults) false hi, w))
    × IsReady host w
    × (w.port ≡ codes "4567")
start-IsReady_example =
    start-IsReady host plenty-Succeeds (transport false) (server hi ∷ retransmissions 5 ∷ []) hi
      chosen_options-IsProper refl refl refl refl
