-- ===== src/Blocks/Release.antt =====
-- No block is left behind and none is freed twice, in the handlers of src/network_udp.c and
-- src/state_*.c and in the commands, but for the ERR that answers an unknown message.
use ipk_projekt.Blocks.{
  remove, free, free_if, Heap, Cmd, msg_case, new_two_texts, new_struct, send_confirm, new_packet,
  send_packet, free_msg, alloc, reply_case, ping_case, err_case, send_command, cmd_msg_blocks, ◌>>◌,
  malformed_case, confirm_case, bye_case, given, free_confirm_msg, free_err_msg, free_ping_msg,
  new_one_text, free_reply_msg, free_bye_msg,
}
use ipk_projekt.Base.{
  ℕ, List, Bool, ◌≡◌, ◌≢◌, ◌∷◌, ◌<◌, true, some, ==_ne, ok, arith, ◌+◌, none, fault, false, refl,
}
use Prim.Native.Nat.{ℕ}

remove_head : (p : ℕ) (live : List ℕ) → remove p (p ∷ live) ≡ some live
unfolding remove
remove_head p live = ground arith

remove_behind :
    (p q : ℕ) (live live' : List ℕ)
    → q ≢ p
    → remove p live ≡ some live'
    → remove p (q ∷ live) ≡ some (q ∷ live')
unfolding remove
remove_behind p q live live' h e = rw (==_ne q p h, e)

remove_absent :
    (p q : ℕ) (live : List ℕ) → q ≢ p → remove p live ≡ none → remove p (q ∷ live) ≡ none
unfolding remove
remove_absent p q live h e = rw (==_ne q p h, e) refl

-- The heap with other addresses in use.
abbrev with_live : Heap → List ℕ → Heap
with_live h live = record h { live = live }

free_lem :
    (p : ℕ) (h : Heap) (live : List ℕ)
    → 0 < p
    → remove p h.live ≡ some live
    → free p h ≡ ok (tt, with_live h live)
unfolding free
free_lem p h live pos e = rw (==_ne p 0 (λ z. omega arith), e)

free_if_lem :
    (p : ℕ) (h : Heap) (live : List ℕ)
    → 0 < p
    → remove p h.live ≡ some live
    → free_if p h ≡ ok (tt, with_live h live)
unfolding free_if
free_if_lem p h live pos e = rw (==_ne p 0 (λ z. omega arith), e)

-- Blocks that were given out one after the other, the last of them for the CONFIRM, are freed in the
-- order of the handlers.
module _ (a n : ℕ) (live : List ℕ) (pos : 0 < a) where
  abbrev heap : List ℕ → Heap
  heap l = record { next = n; live = l }

  release_struct :
      (free a >> free (a + 1)) (heap ((a + 1 + 1) ∷ (a + 1) ∷ a ∷ live))
      ≡ ok (tt, heap ((a + 1 + 1) ∷ live))
  release_struct =
      rw
        (free_lem a (heap ((a + 1 + 1) ∷ (a + 1) ∷ a ∷ live)) ((a + 1 + 1) ∷ (a + 1) ∷ live) pos (
          remove_behind a (a + 1 + 1) ((a + 1) ∷ a ∷ live) ((a + 1) ∷ live) (λ e. omega arith)
            (remove_behind a (a + 1) (a ∷ live) (live) (λ e. omega arith) (remove_head a live))))
        (free_lem (a + 1) (heap ((a + 1 + 1) ∷ (a + 1) ∷ live)) ((a + 1 + 1) ∷ live) (omega arith) (
          remove_behind (a + 1) (a + 1 + 1) ((a + 1) ∷ live) (live) (λ e. omega arith)
            (remove_head (a + 1) live)))

  release_one :
      (free_if (a + 1) >> free a >> free (a + 1 + 1))
        (heap ((a + 1 + 1 + 1) ∷ (a + 1 + 1) ∷ (a + 1) ∷ a ∷ live))
      ≡ ok (tt, heap ((a + 1 + 1 + 1) ∷ live))
  release_one =
      rw
        (
          free_if_lem (a + 1) (heap ((a + 1 + 1 + 1) ∷ (a + 1 + 1) ∷ (a + 1) ∷ a ∷ live))
              ((a + 1 + 1 + 1) ∷ (a + 1 + 1) ∷ a ∷ live) (omega arith)
              (remove_behind (a + 1) (a + 1 + 1 + 1) ((a + 1 + 1) ∷ (a + 1) ∷ a ∷ live)
                ((a + 1 + 1) ∷ a ∷ live) (λ e. omega arith)
                (remove_behind (a + 1) (a + 1 + 1) ((a + 1) ∷ a ∷ live) (a ∷ live)
                  (λ e. omega arith) (remove_head (a + 1) (a ∷ live)))),
          free_lem a (heap ((a + 1 + 1 + 1) ∷ (a + 1 + 1) ∷ a ∷ live))
              ((a + 1 + 1 + 1) ∷ (a + 1 + 1) ∷ live) pos
              (remove_behind a (a + 1 + 1 + 1) ((a + 1 + 1) ∷ a ∷ live) ((a + 1 + 1) ∷ live)
                (λ e. omega arith)
                (remove_behind a (a + 1 + 1) (a ∷ live) (live) (λ e. omega arith)
                  (remove_head a live))),
        )
        (free_lem (a + 1 + 1) (heap ((a + 1 + 1 + 1) ∷ (a + 1 + 1) ∷ live)) ((a + 1 + 1 + 1) ∷ live)
          (omega arith)
          (remove_behind (a + 1 + 1) (a + 1 + 1 + 1) ((a + 1 + 1) ∷ live) (live) (λ e. omega arith)
            (remove_head (a + 1 + 1) live)))

  release_two :
      ((free_if (a + 1) >> (free_if (a + 1 + 1) >> free a)) >> free (a + 1 + 1 + 1))
        (heap ((a + 1 + 1 + 1 + 1) ∷ (a + 1 + 1 + 1) ∷ (a + 1 + 1) ∷ (a + 1) ∷ a ∷ live))
      ≡ ok (tt, heap ((a + 1 + 1 + 1 + 1) ∷ live))
  release_two =
      rw
        (
          free_if_lem (a + 1)
              (heap ((a + 1 + 1 + 1 + 1) ∷ (a + 1 + 1 + 1) ∷ (a + 1 + 1) ∷ (a + 1) ∷ a ∷ live))
              ((a + 1 + 1 + 1 + 1) ∷ (a + 1 + 1 + 1) ∷ (a + 1 + 1) ∷ a ∷ live) (omega arith)
              (remove_behind (a + 1) (a + 1 + 1 + 1 + 1)
                ((a + 1 + 1 + 1) ∷ (a + 1 + 1) ∷ (a + 1) ∷ a ∷ live)
                ((a + 1 + 1 + 1) ∷ (a + 1 + 1) ∷ a ∷ live) (λ e. omega arith)
                (remove_behind (a + 1) (a + 1 + 1 + 1) ((a + 1 + 1) ∷ (a + 1) ∷ a ∷ live)
                  ((a + 1 + 1) ∷ a ∷ live) (λ e. omega arith)
                  (remove_behind (a + 1) (a + 1 + 1) ((a + 1) ∷ a ∷ live) (a ∷ live)
                    (λ e. omega arith) (remove_head (a + 1) (a ∷ live))))),
          free_if_lem (a + 1 + 1)
              (heap ((a + 1 + 1 + 1 + 1) ∷ (a + 1 + 1 + 1) ∷ (a + 1 + 1) ∷ a ∷ live))
              ((a + 1 + 1 + 1 + 1) ∷ (a + 1 + 1 + 1) ∷ a ∷ live) (omega arith)
              (remove_behind (a + 1 + 1) (a + 1 + 1 + 1 + 1)
                ((a + 1 + 1 + 1) ∷ (a + 1 + 1) ∷ a ∷ live) ((a + 1 + 1 + 1) ∷ a ∷ live)
                (λ e. omega arith)
                (remove_behind (a + 1 + 1) (a + 1 + 1 + 1) ((a + 1 + 1) ∷ a ∷ live) (a ∷ live)
                  (λ e. omega arith) (remove_head (a + 1 + 1) (a ∷ live)))),
          free_lem a (heap ((a + 1 + 1 + 1 + 1) ∷ (a + 1 + 1 + 1) ∷ a ∷ live))
              ((a + 1 + 1 + 1 + 1) ∷ (a + 1 + 1 + 1) ∷ live) pos
              (remove_behind a (a + 1 + 1 + 1 + 1) ((a + 1 + 1 + 1) ∷ a ∷ live)
                ((a + 1 + 1 + 1) ∷ live) (λ e. omega arith)
                (remove_behind a (a + 1 + 1 + 1) (a ∷ live) (live) (λ e. omega arith)
                  (remove_head a live))),
        )
        (free_lem (a + 1 + 1 + 1) (heap ((a + 1 + 1 + 1 + 1) ∷ (a + 1 + 1 + 1) ∷ live))
          ((a + 1 + 1 + 1 + 1) ∷ live) (omega arith)
          (remove_behind (a + 1 + 1 + 1) (a + 1 + 1 + 1 + 1) ((a + 1 + 1 + 1) ∷ live) (live)
            (λ e. omega arith) (remove_head (a + 1 + 1 + 1) live)))

module _ (grants : ℕ → Bool) (plenty : (n : ℕ) → grants n ≡ true) where
  -- The code returns, with the blocks in use that were in use before.
  abbrev pub Restores : Cmd (Unit {0}) → Type 0
  Restores p = (h : Heap) → 0 < h.next → (n : ℕ) × (p h ≡ ok (tt, record h { next = n }))

  -- The code returns, with one block more in use.
  abbrev pub Leaks : Cmd (Unit {0}) → Type 0
  Leaks p =
      (h : Heap)
      → 0 < h.next
      → (n : ℕ) × (list : ℕ) × (p h ≡ ok (tt, record h { next = n; live = list ∷ h.live }))

  confirm_case-Restores : Restores (confirm_case grants)
  unfolding confirm_case new_struct alloc free_confirm_msg
  confirm_case-Restores h pos = (
    h.next + 1,
    rw (plenty h.next) (free_lem h.next (given h) h.live pos (remove_head h.next h.live)),
  )

  ping_case-Leaks : Leaks (ping_case grants)
  unfolding ping_case new_struct send_confirm new_packet send_packet alloc free_ping_msg
  ping_case-Leaks h pos = (
    h.next + 1 + 1 + 1,
    h.next + 1 + 1,
    rw (plenty h.next, plenty (h.next + 1)) (release_struct h.next _ h.live pos),
  )

  reply_case-Leaks : Leaks (reply_case grants)
  unfolding reply_case new_one_text new_struct send_confirm new_packet send_packet alloc
      free_reply_msg
  reply_case-Leaks h pos = (
    h.next + 1 + 1 + 1 + 1,
    h.next + 1 + 1 + 1,
    rw (plenty h.next, plenty (h.next + 1), plenty (h.next + 1 + 1))
        (release_one h.next _ h.live pos),
  )

  bye_case-Leaks : Leaks (bye_case grants)
  unfolding bye_case new_one_text new_struct send_confirm new_packet send_packet alloc free_bye_msg
  bye_case-Leaks h pos = (
    h.next + 1 + 1 + 1 + 1,
    h.next + 1 + 1 + 1,
    rw (plenty h.next, plenty (h.next + 1), plenty (h.next + 1 + 1))
        (release_one h.next _ h.live pos),
  )

  msg_case-Leaks : Leaks (msg_case grants)
  unfolding msg_case new_two_texts new_struct send_confirm new_packet send_packet alloc free_msg
  msg_case-Leaks h pos = (
    h.next + 1 + 1 + 1 + 1 + 1,
    h.next + 1 + 1 + 1 + 1,
    rw (plenty h.next, plenty (h.next + 1), plenty (h.next + 1 + 1), plenty (h.next + 1 + 1 + 1))
        (release_two h.next _ h.live pos),
  )

  err_case-Leaks : Leaks (err_case grants)
  unfolding err_case new_two_texts new_struct send_confirm new_packet send_packet alloc free_err_msg
  err_case-Leaks h pos = (
    h.next + 1 + 1 + 1 + 1 + 1,
    h.next + 1 + 1 + 1 + 1,
    rw (plenty h.next, plenty (h.next + 1), plenty (h.next + 1 + 1), plenty (h.next + 1 + 1 + 1))
        (release_two h.next _ h.live pos),
  )

  send_command-Restores : Restores (send_command grants)
  unfolding send_command new_packet send_packet alloc
  send_command-Restores h pos =
      let a = h.next in
      (
        a + 1 + 1,
        rw
            (
              plenty a,
              free_lem (a + 1) (given (given h)) (a ∷ h.live) (omega arith)
                  (remove_head (a + 1) (a ∷ h.live)),
            )
            (free_lem a (record { next = a + 1 + 1; live = a ∷ h.live }) h.live pos
              (remove_head a h.live)),
      )

  cmd_msg-Restores : (tcp : Bool) → Restores (cmd_msg_blocks grants tcp)
  unfolding cmd_msg_blocks
  cmd_msg-Restores true h pos = (
    h.next + 1,
    rw (plenty h.next) (free_lem h.next (given h) h.live pos (remove_head h.next h.live)),
  )
  cmd_msg-Restores false h pos =
      let (n, e) = send_command-Restores (given h) (omega arith) in
      (
        n,
        rw (plenty h.next, e)
            (free_lem h.next (record (given h) { next = n }) h.live pos
              (remove_head h.next h.live)),
      )

  -- With memory, CONFIRM and the commands give back all blocks that they take, and free none twice; each
  -- other known case of the switch gives back all but one: the list of addresses that the sending of
  -- its CONFIRM took and never frees.
  pub handlers-Restores :
      Restores (confirm_case grants)
      × Leaks (reply_case grants)
      × Leaks (msg_case grants)
      × Leaks (ping_case grants)
      × Leaks (err_case grants)
      × Leaks (bye_case grants)
      × Restores (send_command grants)
      × ((tcp : Bool) → Restores (cmd_msg_blocks grants tcp))
  handlers-Restores = (
    confirm_case-Restores, reply_case-Leaks, msg_case-Leaks, ping_case-Leaks, err_case-Leaks,
    bye_case-Leaks, send_command-Restores, cmd_msg-Restores,
  )

  -- With memory, the answer to a message of an unknown type frees its ERR twice, if that is confirmed at
  -- all: `send_network_msg_udp` has freed it when it returns. No block in use has an address that
  -- `malloc` is still to give out.
  pub malformed_case_twice :
      (h : Heap)
      → 0 < h.next
      → remove (h.next + 1 + 1) h.live ≡ none
      → malformed_case grants h ≡ fault
  unfolding malformed_case send_confirm new_packet send_packet alloc
  malformed_case_twice h pos unused =
      let a = h.next in
      let b = a + 1 in
      let e = a + 1 + 1 in
      let l = b ∷ h.live in
      let unused' : remove e l ≡ none = remove_absent e b h.live (λ z. omega arith) unused in
      let again : free e (record { next = e + 1 + 1; live = l }) ≡ fault =
        unfold free in rw (==_ne e 0 (λ z. omega arith), unused') in
      rw
        (
          plenty a,
          free_lem a (given (given h)) l pos
              (remove_behind a b (a ∷ h.live) h.live (λ z. omega arith) (remove_head a h.live)),
          plenty e,
          free_lem (e + 1) (record { next = e + 1 + 1; live = (e + 1) ∷ e ∷ l }) (e ∷ l)
              (omega arith) (remove_head (e + 1) (e ∷ l)),
          free_lem e (record { next = e + 1 + 1; live = e ∷ l }) l (omega arith) (remove_head e l),
        )
        again
