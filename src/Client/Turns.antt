-- ===== src/Client/Turns.antt =====
-- One turn of a conversation in OPEN: what it is to do what the protocol says.
pub mod Lines
pub mod Join
use Prim.Native.Nat.{ℕ}
use ipk_projekt.Memory.{Bytes, c_str}
use ipk_projekt.Ids.Dedup.{view}
use ipk_projekt.World.{Config, World, Arrival, usage}
use ipk_projekt.Client.{step}
use ipk_projekt.Client.Talk.{
  said, heard, Turn, Talk, IsOpen, event_of, helped, after, sends, shows, renamed, line_after,
}
use ipk_projekt.Deserialize.RoundTrip.{Succeeds}
use ipk_projekt.Base.{
  List, ◌∷◌, ◌≡◌, ◌∙◌, false, ◌+◌, codes, ◌≤◌, ◌<◌, ap, ok, [], inr, subst, ◌++◌, sym, inl, arith,
  length, append-nil, refl, take,
}
use ipk_projekt.Udp.Rounds.{Delivers}
use ipk_projekt.Client.Entry.{IsMessage}
use ipk_projekt.Listener.Inbox.{Incoming, AllFit, listen-fresh, after_all, remembered, fresh}
use ipk_projekt.Ids.{Confirmed}
use ipk_projekt.Listener.Delivery.{confirm_arrival}
use ipk_projekt.Ids.Confirm.{is_confirmed}
use ipk_projekt.Client.Chat.{CanSend, line-confirmed, confirmed_in}
use ipk_projekt.Commands.Message.{msg_packet}
use ipk_projekt.Commands.{cmd_help}
use ipk_projekt.Validation.Charset.{Fits, IsBetween}
use ipk_projekt.Client.InOpen.{help_line_lem, command_taken, rename_line_lem}
use ipk_projekt.Commands.Rename.{cmd_rename_short}
use ipk_projekt.Ids.Confirm
use ipk_projekt.Ids.Dedup

-- What the surroundings grant for a whole conversation.
pub record Grants (cfg : Config) (size limit : ℕ) : Type 0 where
  pub roomy : Succeeds cfg.malloc
  pub delivers : Delivers cfg
  pub udp : cfg.use_tcp_protocol ≡ false
  pub room : 3 < size
  pub limited : limit ≤ 65536

module _ (cfg : Config) (address port size limit : ℕ) (g : Grants cfg size limit) where
  -- The turn, from a client that agrees with the conversation to one that does.
  pub record Does (turn : Turn) (t : Talk) (later : List (List Arrival)) (w w1 : World)
      : Type 0 where
    pub steps : step cfg (event_of turn) w ≡ (ok tt, w1)
    pub is_open : IsOpen cfg address size limit (after turn t) w1
    pub sent : w1.sent ≡ w.sent ++ sends address turn t
    pub shown : w1.printed ≡ w.printed ++ shows turn t
    pub to_come : w1.arrivals ≡ later
    pub line_kept : w1.line ≡ line_after cfg.getline_size turn w.line

  -- With the same tables, name and state, and a buffer of the same size.
  pub same-IsOpen :
      (t : Talk) (w w1 : World)
      → IsOpen cfg address size limit t w
      → w1.state ≡ w.state
      → w1.display_name ≡ w.display_name
      → w1.confirmed ≡ w.confirmed
      → w1.seen ≡ w.seen
      → w1.port ≡ w.port
      → w1.has_changed_to_dyn_port ≡ w.has_changed_to_dyn_port
      → w1.recv_buffer ≡ w.recv_buffer
      → IsOpen cfg address size limit t w1
  same-IsOpen t w w1 o s d c e p h b = record {
    in_open = s ∙ o.in_open;
    called = ap c_str d ∙ o.called;
    name_ok = o.name_ok;
    counts = ap (λ (x : Confirmed). x.index) c ∙ o.counts;
    knows = ap view e ∙ o.knows;
    resolves = ap (cfg.resolve cfg.hostname) p ∙ o.resolves;
    port_changed = h ∙ o.port_changed;
    valid = subst Confirm.IsValid (sym c) o.valid;
    seen_valid = subst Dedup.IsValid (sym e) o.seen_valid;
    sized = ap length b ∙ o.sized;
    cells = subst (λ (x : Confirmed). limit ≤ x.array_size) (sym c) o.cells;
  }
