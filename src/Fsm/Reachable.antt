-- ===== src/Fsm/Reachable.antt =====
-- What holds of a machine throughout its life, and what its invariant implies.
use ppp.Prelude.{ℕ, zero, suc, pos, ◌≡◌, ◌⊎◌, refl, ap, true, List, [], ◌∷◌, arith, nonpos}
use ppp.Fsm.Defs.{closed, stopped, Fsm, World, Callbacks}
use ppp.Fsm.Send.{call, set_state, clear_timer, sconfreq, send_termreq}
use ppp.Fsm.Events.{timeout}
use ppp.Fsm.Input.{rconfack, rconfnakrej}
use ppp.Fsm.Timers.{
  IsSound, KeepsSound, timed, is_acked, lowerup-IsSound, lowerdown-IsSound, open_layer-IsSound,
  close_layer-IsSound, protreject-IsSound, timeout-IsSound,
}
use ppp.Fsm.Received.{input-IsSound}
use ppp.Fsm.Run.{
  Event, up, down, open', expire, reject, close', receive, elsewhere, start, fire, step, run,
  expiries,
}

module _ {C : Type 0} (cb : Callbacks C) (keeps : KeepsSound cb) where
  fire-IsSound : (w : World C) → IsSound w → IsSound (fire cb w)
  unfolding fire
  fire-IsSound w h = ground (arith, timeout-IsSound cb keeps w h)

  step-IsSound : (e : Event C) (w : World C) → IsSound w → IsSound (step cb e w)
  unfolding step
  step-IsSound up w h = lowerup-IsSound cb keeps w h
  step-IsSound down w h = lowerdown-IsSound cb keeps w h
  step-IsSound open' w h = open_layer-IsSound cb keeps w h
  step-IsSound expire w h = fire-IsSound w h
  step-IsSound reject w h = protreject-IsSound cb keeps w h
  step-IsSound (close' reason) w h = close_layer-IsSound cb keeps reason w h
  step-IsSound (receive packet) w h = input-IsSound cb keeps packet w h
  step-IsSound (elsewhere g) w h = ground arith

  run_from-IsSound : (es : List (Event C)) (w : World C) → IsSound w → IsSound (run cb es w)
  unfolding run
  run_from-IsSound [] w h = h
  run_from-IsSound (e ∷ es) w h = run_from-IsSound es (step cb e w) (step-IsSound e w h)

  -- After any sequence of events from `fsm_init` on, a callout of `fsm_timeout` is pending exactly
  -- once in `closing`, `stopping`, `req_sent`, `ack_rcvd` and `ack_sent` and not at all in the other
  -- states, and in `ack_rcvd` and `opened` the last request has been acknowledged; provided that the
  -- callbacks `up`, `starting`, `finished` and `extcode` keep this themselves.
  pub run-IsSound : (f : Fsm) (c : C) (es : List (Event C)) → IsSound (run cb es (start f c))
  unfolding start
  run-IsSound f c es =
      run_from-IsSound es (start f c) (record { one_timer = refl; acked = λ e. cc })

module _ {C : Type 0} (cb : Callbacks C) where
  -- In a sound machine, once the peer has acknowledged the last request (`ack_rcvd`, `opened`), a
  -- further Configure-Ack, -Nak or -Reject changes nothing, whatever its identifier and options.
  reply_ignored :
      (code id : ℕ) (body : List ℕ) (w : World C)
      → IsSound w
      → is_acked w.fsm.state ≡ true
      → (rconfack cb id body w ≡ w) × (rconfnakrej cb code id body w ≡ w)
  unfolding rconfack rconfnakrej
  reply_ignored code id body w h a = ground arith

  abbrev pub IsResting : World C → Type 0
  IsResting w = ((w.fsm.state ≡ closed) ⊎ (w.fsm.state ≡ stopped)) × (w.timers ≡ 0)

  module _
      (quiet : (w : World C)
        → ((call cb.finished w).fsm ≡ w.fsm) × ((call cb.finished w).timers ≡ w.timers)) where
    fire_last :
        (w : World C)
        → IsSound w
        → timed w.fsm.state ≡ 1
        → nonpos w.fsm.retransmits ≡ true
        → IsResting (fire cb w)
    unfolding fire timeout
    fire_last w h t out =
        ground (
          arith,
          quiet (set_state closed (clear_timer w)),
          quiet (set_state stopped (clear_timer w)),
        )

    fire_again :
        (n : ℕ) (w : World C)
        → IsSound w
        → timed w.fsm.state ≡ 1
        → w.fsm.retransmits ≡ pos (suc n)
        → IsSound (fire cb w)
          × (timed (fire cb w).fsm.state ≡ 1)
          × ((fire cb w).fsm.retransmits ≡ pos n)
    unfolding fire timeout send_termreq sconfreq
    fire_again n w h t left = ground arith

    -- A timed machine with `n` transmissions left, hearing nothing, comes to rest in `closed` or
    -- `stopped` within `n + 1` expiries, with no callout pending; provided that `finished` leaves
    -- the machine and its callouts as they are.
    pub expiries-IsResting :
        (n : ℕ) (w : World C)
        → IsSound w
        → timed w.fsm.state ≡ 1
        → w.fsm.retransmits ≡ pos n
        → IsResting (expiries cb (suc n) w)
    unfolding expiries
    expiries-IsResting zero w h t left = fire_last w h t (ap nonpos left)
    expiries-IsResting (suc n) w h t left =
        let (h', t', left') = fire_again n w h t left in
        expiries-IsResting n (fire cb w) h' t' left'
