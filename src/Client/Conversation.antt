-- ===== src/Client/Conversation.antt =====
-- A conversation over UDP, both ways: the loop of src/main.c with the commands on the user's side,
-- `udp_listener` of src/network_udp.c on the server's, against the protocol of Client/Talk.
use Prim.Native.Nat.{ℕ}
use ipk_projekt.Client.Talk.{
  said, heard, renamed, joined, helped, Turn, Talk, TurnFits, after, after_turns, IsOpen,
  brought_all, event_of, brought, sent_by, shown_by, LinesFit, LineFits,
}
use ipk_projekt.World.{Config, Arrival, World}
use ipk_projekt.Base.{
  List, All, ◌≤◌, arith, map, ◌∷◌, ◌≡◌, [], sym, ◌++◌, append-nil, ◌∙◌, append_assoc, refl, subst,
}
use ipk_projekt.Client.Turns.{Grants, Does}
use ipk_projekt.Client.{run, Event}
use ipk_projekt.Client.Turns.Lines.{said-Does, heard-Does, renamed-Does, helped-Does}
use ipk_projekt.Client.Turns.Join.{joined-Does}

abbrev pub AllTurnsFit : ℕ → List Turn → Type 0
AllTurnsFit size turns = All (TurnFits size) turns

next-after : (turn : Turn) (t : Talk) → t.next ≤ (after turn t).next
next-after (said c s h) t = omega arith
next-after (heard ms) t = omega arith
next-after (renamed name h) t = omega arith
next-after (joined j) t = omega arith
next-after helped t = omega arith

next-after_turns : (turns : List Turn) (t : Talk) → t.next ≤ (after_turns turns t).next
next-after_turns [] t = omega arith
next-after_turns (turn ∷ turns) t =
    omega (arith, next-after turn t, next-after_turns turns (after turn t))

module _ (cfg : Config) (address port size limit : ℕ) (g : Grants cfg size limit) where
  turn-Does :
      (turn : Turn) (t : Talk) (later : List (List Arrival)) (w : World)
      → IsOpen cfg address size limit t w
      → LineFits turn w.line
      → TurnFits size turn
      → (after turn t).next ≤ limit
      → w.arrivals ≡ brought port turn t ++ later
      → (w1 : World) × Does cfg address port size limit g turn t later w w1
  turn-Does (said c s h) t later w o room fits few next =
      said-Does cfg address port size limit g c s h t later w o room few next
  turn-Does (heard ms) t later w o room fits few next =
      heard-Does cfg address port size limit g ms t later w o fits next
  turn-Does (renamed name h) t later w o room fits few next =
      renamed-Does cfg address port size limit g name h t later w o room next
  turn-Does (joined j) t later w o room fits few next =
      joined-Does cfg address port size limit g j t later w o room few fits next
  turn-Does helped t later w o room fits few next =
      helped-Does cfg address port size limit g t later w o room next

  -- What the rest of the program finds after a conversation.
  pub record Talked (turns : List Turn) (t : Talk) (later : List (List Arrival)) (w w' : World)
      : Type 0 where
    pub runs : (events : List Event) → run cfg (map event_of turns ++ events) w ≡ run cfg events w'
    pub is_open : IsOpen cfg address size limit (after_turns turns t) w'
    pub sent : w'.sent ≡ w.sent ++ sent_by address turns t
    pub shown : w'.printed ≡ w.printed ++ shown_by turns t
    pub to_come : w'.arrivals ≡ later

  -- A conversation in OPEN, of any length and in any order of lines and datagrams, does what the protocol
  -- says. Each message goes out once, under the next id, and so does each JOIN, when the CONFIRM
  -- comes during the first sleep, for a JOIN with a REPLY behind it; the REPLY is shown and
  -- confirmed; a new display name is used from then on; of what the server relays each id is shown
  -- once, when it comes for the first time, and every copy is confirmed. What is sent and what is
  -- shown is in this order, the client is in OPEN again after each turn, and the run goes on with
  -- the rest of the events. There is memory, the network delivers, the tables of ids are valid with
  -- a cell for each message, ids have 16 bits, each datagram has room in the buffer, and `getline`
  -- has room for each line where the commands before it left `line`.
  pub run-Talked :
      (turns : List Turn) (t : Talk) (later : List (List Arrival)) (w : World)
      → IsOpen cfg address size limit t w
      → LinesFit cfg.getline_size turns w.line
      → AllTurnsFit size turns
      → (after_turns turns t).next ≤ limit
      → w.arrivals ≡ brought_all port turns t later
      → (w' : World) × Talked turns t later w w'
  unfolding run
  run-Talked [] t later w o room fits few next = (
    w,
    record {
      runs = λ events. refl;
      is_open = o;
      sent = sym (append-nil w.sent);
      shown = sym (append-nil w.printed);
      to_come = next;
    },
  )
  run-Talked (turn ∷ turns) t later w o room fits few next =
      let (w1, first) =
        turn-Does turn t (brought_all port turns (after turn t) later) w o room.0 fits.0
          (omega (arith, next-after_turns turns (after turn t), few)) next in
      let (w', others) =
        run-Talked turns (after turn t) later w1 first.is_open
          (subst (LinesFit cfg.getline_size turns) (sym first.line_kept) room.1) fits.1 few
          first.to_come in
      (
        w',
        record {
          runs = λ events. rw first.steps (others.runs events);
          is_open = others.is_open;
          sent =
              others.sent
              ∙ (λ i. first.sent i ++ sent_by address turns (after turn t))
              ∙ append_assoc w.sent _ _;
          shown =
              others.shown
              ∙ (λ i. first.shown i ++ shown_by turns (after turn t))
              ∙ append_assoc w.printed _ _;
          to_come = others.to_come;
        },
      )
