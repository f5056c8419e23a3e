-- ===== src/Startup/Ready.antt =====
-- The client is ready: the state in which the loop of src/main.c begins.
use ipk_projekt.Ids.Confirm
use ipk_projekt.Ids.Dedup
use ipk_projekt.Startup.{
  first_world, System, new_seen, start, new_confirmed, start_parsed, start_with, start_udp,
  defaults, config, start_args, default_array_size,
}
use ipk_projekt.Base.{
  ◌≡◌, ok, ◌∷◌, arith, List, [], refl, All, some, false, true, codes, ◌∙◌, Option, Bool, ap, Result,
  if◌then◌else◌, exits, exit_failure,
}
use ipk_projekt.World.{World, state_start, Config, no_block}
use ipk_projekt.Memory.{Bytes, c_str}
use ipk_projekt.Deserialize.RoundTrip.{Succeeds}
use ipk_projekt.Ids.{Confirmed, Seen, cells_of, unset_from}
use ipk_projekt.Args.Options.{Choice, all_chosen, IsProper, spelled, parse_args-spelled}
use ipk_projekt.Args.{Settings}
use ipk_projekt.Ids.Cells.{length-unset_from, length-cells_of}

-- What the rest of the program relies on when its loop begins.
pub record IsReady (system : System) (w : World) : Type 0 where
  pub in_start : w.state ≡ state_start
  pub confirmed_ok : Confirm.IsValid w.confirmed
  pub seen_ok : Dedup.IsValid w.seen
  pub nothing_sent : w.confirmed.index ≡ 0
  pub nothing_seen : w.seen.count ≡ 0
  pub cells : w.confirmed.array_size ≡ default_array_size
  pub name_read : c_str w.display_name ≡ ok (codes "unknown")
  pub no_line_read : w.line ≡ no_block
  pub no_line : w.line_buffer.text ≡ []
  pub port_given : w.has_changed_to_dyn_port ≡ false
  pub buffer : w.recv_buffer ≡ system.stack
  pub to_come : w.arrivals ≡ system.network
  pub no_output : w.printed ≡ []
  pub no_datagram : w.sent ≡ []

module _ (system : System) (roomy : Succeeds system.malloc) where
  new_confirmed-IsValid :
      (c : Confirmed) × (new_confirmed system.malloc ≡ ok c)
      × Confirm.IsValid c
      × (c.index ≡ 0)
      × (c.array_size ≡ 100)
  unfolding new_confirmed
  new_confirmed-IsValid =
      let (block, e) = roomy 200 in
      (
        record { ids = unset_from 0 (cells_of block); index = 0; array_size = 100 },
        rw e,
        record {
          sized =
              length-unset_from 0 (cells_of block)
              ∙ length-cells_of 100 block (system.malloc.length-alloc 200 block e);
          nonempty = omega arith;
        },
        refl,
        refl,
      )

  new_seen-IsValid : (s : Seen) × (new_seen system.malloc ≡ ok s) × Dedup.IsValid s × (s.count ≡ 0)
  unfolding new_seen
  new_seen-IsValid =
      let (block, e) = roomy 200 in
      (
        record { ids = cells_of block; count = 0; array_size = 100 },
        rw e,
        record {
          sized = length-cells_of 100 block (system.malloc.length-alloc 200 block e);
          nonempty = omega arith;
          within = omega arith;
        },
        refl,
      )

  start_with-udp :
      (s : Settings) (transport : Option Bool) (server : Option Bytes) (hostname : Bytes)
      → transport ≡ some false
      → server ≡ some hostname
      → start_with system s transport server ≡ start_udp system s hostname
  unfolding start_with
  start_with-udp s transport server hostname e f = rw (e, f)

  -- Any options, each with an argument that fits its kind, that name UDP and a server start the
  -- client, given memory, a thread and the registration of `cleanup`: with the server, the port and the number of retransmissions that the options name last, or their defaults,
  -- in the state START, with both tables of ids valid and without ids, and nothing sent or printed.
  pub start-IsReady :
      (o : Choice) (options : List Choice) (hostname : Bytes)
      → let s : Settings = all_chosen (o ∷ options) defaults in
        All IsProper (o ∷ options)
        → s.use_tcp_protocol ≡ some false
        → s.hostname ≡ some hostname
        → system.cleanup_registered ≡ true
        → system.thread_starts ≡ true
        → (w : World) × (start system (spelled (o ∷ options))
            ≡ ok (config system s false hostname, w))
          × IsReady system w
          × (w.port ≡ s.port)
  unfolding start start_args start_parsed start_with start_udp
  start-IsReady o options hostname h udp server registered thread =
      let s : Settings = all_chosen (o ∷ options) defaults in
      let (c, ec, vc, ic, ac) = new_confirmed-IsValid in
      let (d, ed, vd, id) = new_seen-IsValid in
      (
        first_world system (all_chosen (o ∷ options) defaults) false c d,
        ap {B = Result (Config × World)}
              (λ b. if b then start_args system (spelled (o ∷ options)) else exits exit_failure)
              registered
            ∙ rw (parse_args-spelled (o ∷ options) defaults h) (
                start_with-udp s s.use_tcp_protocol s.hostname hostname udp server
                ∙ rw (ec, ed, thread)),
        record {
          in_start = refl;
          confirmed_ok = vc;
          seen_ok = vd;
          nothing_sent = ic;
          nothing_seen = id;
          cells = ac;
          name_read = unfold c_str in refl;
          no_line_read = refl;
          no_line = refl;
          port_given = refl;
          buffer = refl;
          to_come = refl;
          no_output = refl;
          no_datagram = refl;
        },
        refl,
      )
