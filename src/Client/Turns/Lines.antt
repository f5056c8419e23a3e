-- ===== src/Client/Turns/Lines.antt =====
-- The turns of a conversation that need no REPLY: messages both ways, `/rename` and `/help`. src/cmd_msg.c,
-- src/cmd_rename.c, src/cmd_help.c and `udp_listener` of src/network_udp.c.
use ipk_projekt.Client.Turns.{Grants, Does, same-IsOpen}
use Prim.Native.Nat.{ℕ}
use ipk_projekt.Memory.{Bytes}
use ipk_projekt.World.{Config, World, Arrival, usage}
use ipk_projekt.Client.{step}
use ipk_projekt.Client.Talk.{said, heard, Talk, IsOpen, helped, renamed}
use ipk_projekt.Base.{
  List, ◌∷◌, ◌≡◌, ◌∙◌, ◌+◌, codes, ◌≤◌, ap, [], inr, subst, ◌++◌, sym, inl, arith, append-nil, refl,
}
use ipk_projekt.Client.Entry.{IsMessage, message_line}
use ipk_projekt.Listener.Inbox.{Incoming, AllFit, listen-fresh, after_all, remembered, fresh}
use ipk_projekt.Listener.Delivery.{confirm_arrival}
use ipk_projekt.Client.Chat.{CanSend, line-confirmed, confirmed_in}
use ipk_projekt.Commands.Message.{msg_packet}
use ipk_projekt.Commands.{cmd_help, pointed}
use ipk_projekt.Validation.Charset.{Fits, IsBetween}
use ipk_projekt.Client.InOpen.{help_line_lem, command_taken, rename_line_lem, rename_line}
use ipk_projekt.Commands.Rename.{cmd_rename_short}
use ipk_projekt.Client.Room.{HasRoom, read_in, step-main_round}

module _ (cfg : Config) (address port size limit : ℕ) (g : Grants cfg size limit) where
  pub said-Does :
      (c : ℕ) (s : Bytes) (h : IsMessage (c ∷ s)) (t : Talk) (later : List (List Arrival))
      (w : World)
      → IsOpen cfg address size limit t w
      → HasRoom (message_line c s) w.line
      → t.next + 1 ≤ limit
      → w.arrivals ≡ (confirm_arrival port t.next ∷ []) ∷ later
      → (w1 : World) × Does cfg address port size limit g (said c s h) t later w w1
  said-Does c s h t later w o room fits next =
      let w0 : World = read_in cfg (message_line c s) w in
      let o0 : IsOpen cfg address size limit t w0 =
        same-IsOpen cfg address port size limit g t w w0 o refl refl refl refl refl refl refl in
      let can : CanSend cfg t.name c s g.roomy g.udp o0.name_ok h address port w0 = record {
        in_open = o0.in_open;
        small = omega (arith, o0.counts, g.limited);
        called = o0.called;
        resolves = o0.resolves;
        room = omega (arith, o0.sized, g.room);
        valid = o0.valid;
        cell = omega (arith, o0.counts, o0.cells);
        later = later;
        confirmed_next = next ∙ ap (λ k. (confirm_arrival port k ∷ []) ∷ later) (sym o0.counts);
      } in
      let (ids, b, e, i, l, a, v) =
        line-confirmed cfg t.name c s g.roomy g.udp o0.name_ok h address port w0 g.delivers can in
      (
        confirmed_in cfg t.name c s g.roomy g.udp o0.name_ok h address
            (msg_packet w0.confirmed.index t.name (c ∷ s)) later b ids w0,
        record {
          steps = step-main_round cfg (message_line c s) w room ∙ e;
          is_open = record {
            in_open = o0.in_open;
            called = o0.called;
            name_ok = o0.name_ok;
            counts = i ∙ ap (λ k. k + 1) o0.counts;
            knows = o0.knows;
            resolves = o0.resolves;
            port_changed = o0.port_changed;
            valid = v;
            seen_valid = record {
              sized = o0.seen_valid.sized;
              nonempty = o0.seen_valid.nonempty;
              within = o0.seen_valid.within;
            };
            sized = l ∙ o0.sized;
            cells = omega (arith, o0.cells);
          };
          sent =
              ap
                (λ k.
                  w0.sent ++ (record { to = address; payload = msg_packet k t.name (c ∷ s) } ∷ []))
                o0.counts;
          shown = sym (append-nil w0.printed);
          to_come = refl;
          line_kept = refl;
        },
      )

  pub heard-Does :
      (ms : List Incoming) (t : Talk) (later : List (List Arrival)) (w : World)
      → IsOpen cfg address size limit t w
      → AllFit size ms
      → w.arrivals ≡ later
      → (w1 : World) × Does cfg address port size limit g (heard ms) t later w w1
  unfolding step
  heard-Does ms t later w o fits next =
      let (b, seen, e, v, r, l) = listen-fresh cfg address ms w (record {
        answering = record { roomy = g.roomy; delivers = g.delivers; resolves = o.resolves };
        valid = o.seen_valid;
        allowed = inr (inl o.in_open);
        room = subst (λ n. AllFit n ms) (sym o.sized) fits;
      }) in
      (
        after_all address ms b seen w,
        record {
          steps = e;
          is_open = record {
            in_open = o.in_open;
            called = o.called;
            name_ok = o.name_ok;
            counts = o.counts;
            knows = r ∙ ap (λ ids. remembered ids ms) o.knows;
            resolves = o.resolves;
            port_changed = o.port_changed;
            valid = record { sized = o.valid.sized; nonempty = o.valid.nonempty };
            seen_valid = v;
            sized = l ∙ o.sized;
            cells = o.cells;
          };
          sent = refl;
          shown = ap (λ ids. w.printed ++ fresh ids ms) o.knows;
          to_come = next;
          line_kept = refl;
        },
      )

  pub helped-Does :
      (t : Talk) (later : List (List Arrival)) (w : World)
      → IsOpen cfg address size limit t w
      → HasRoom (codes "/help\n") w.line
      → w.arrivals ≡ later
      → (w1 : World) × Does cfg address port size limit g helped t later w w1
  unfolding cmd_help
  helped-Does t later w o room next =
      let w0 : World = read_in cfg (codes "/help\n") w in
      let o0 : IsOpen cfg address size limit t w0 =
        same-IsOpen cfg address port size limit g t w w0 o refl refl refl refl refl refl refl in
      let w1 : World = record w0 {
        unprocessed_line = codes "/help";
        strtok_rest = [];
        printed = w0.printed ++ (usage ∷ []);
      } in
      (
        w1,
        record {
          steps = step-main_round cfg (codes "/help\n") w room ∙ help_line_lem cfg w0 o0.in_open;
          is_open =
              same-IsOpen cfg address port size limit g t w0 w1 o0 refl refl refl refl refl refl
                refl;
          sent = sym (append-nil w0.sent);
          shown = refl;
          to_come = next;
          line_kept = refl;
        },
      )

  pub renamed-Does :
      (name : Bytes) (h : Fits 19 (IsBetween 0x21 0x7E) name) (t : Talk)
      (later : List (List Arrival)) (w : World)
      → IsOpen cfg address size limit t w
      → HasRoom (rename_line name) w.line
      → w.arrivals ≡ later
      → (w1 : World) × Does cfg address port size limit g (renamed name h) t later w w1
  renamed-Does name h t later w o room next =
      let w0 : World = read_in cfg (rename_line name) w in
      let o0 : IsOpen cfg address size limit t w0 =
        same-IsOpen cfg address port size limit g t w w0 o refl refl refl refl refl refl refl in
      let line : Bytes = codes "/rename " ++ name in
      let (array, e, called, _) = cmd_rename_short name (command_taken line name w0) h refl in
      (
        record (pointed (command_taken line name w0)) { strtok_rest = []; display_name = array },
        record {
          steps =
              step-main_round cfg (rename_line name) w room
              ∙ rename_line_lem cfg name w0 o0.in_open
              ∙ e;
          is_open = record {
            in_open = o0.in_open;
            called = called;
            name_ok = (h.0, omega (arith, h.1), h.2);
            counts = o0.counts;
            knows = o0.knows;
            resolves = o0.resolves;
            port_changed = o0.port_changed;
            valid = record { sized = o0.valid.sized; nonempty = o0.valid.nonempty };
            seen_valid = record {
              sized = o0.seen_valid.sized;
              nonempty = o0.seen_valid.nonempty;
              within = o0.seen_valid.within;
            };
            sized = o0.sized;
            cells = o0.cells;
          };
          sent = sym (append-nil w0.sent);
          shown = sym (append-nil w0.printed);
          to_come = next;
          line_kept = refl;
        },
      )
