-- ===== src/Fsm/Timers.antt =====
-- The invariant of the machine between two events, kept by every entry point of pppd/fsm.c.
use ppp.Prelude.{ℕ, ◌+◌, ◌-◌, ◌<◌, ◌≡◌, refl, if◌then◌else◌, ◌⊎◌, Bool, true, false, List, arith}
use ppp.Fsm.Defs.{
  State, starting, closed, stopped, closing, stopping, req_sent, ack_rcvd, ack_sent, opened, World,
  Callbacks,
}
use ppp.Fsm.Send.{
  is_opened, begin_terminate, set_state, call, tell, clear_timer, sdata, sconfreq, send_termreq,
  terminate_layer,
}
use ppp.Fsm.Input.{extended}
use ppp.Fsm.Events.{restart, lowerup, lowerdown, open_layer, close_layer, timeout, protreject}

-- The states in which a reply is awaited.
abbrev pub timed : State → ℕ
timed closing = 1
timed stopping = 1
timed req_sent = 1
timed ack_rcvd = 1
timed ack_sent = 1
timed _ = 0

-- The states in which the peer has accepted our last Configure-Request.
abbrev pub is_acked : State → Bool
is_acked ack_rcvd = true
is_acked opened = true
is_acked _ = false

module _ {C : Type 0} where
  pub record IsSound (w : World C) : Type 0 where
    pub one_timer : w.timers ≡ timed w.fsm.state
    pub acked : is_acked w.fsm.state ≡ true → w.fsm.seen_ack ≡ true

-- What is asked of the callbacks that may call the machine again: each keeps the invariant.
pub record KeepsSound {C : Type 0} (cb : Callbacks C) : Type 0 where
  pub up : (w : World C) → IsSound w → IsSound (call cb.up w)
  pub starting : (w : World C) → IsSound w → IsSound (call cb.starting w)
  pub finished : (w : World C) → IsSound w → IsSound (call cb.finished w)
  pub extcode :
      (code id : ℕ) (body : List ℕ) (w : World C)
      → IsSound w
      → IsSound (extended cb.extcode code id body w).1

module _ {C : Type 0} (cb : Callbacks C) where
  pub sconfreq_effect :
      (b : Bool) (w : World C)
      → ((sconfreq cb b w).fsm.state ≡ w.fsm.state)
        × ((sconfreq cb b w).timers ≡ w.timers + 1)
        × ((sconfreq cb b w).fsm.seen_ack ≡ false)
  unfolding sconfreq
  sconfreq_effect b w = ground arith

  sconfreq-IsSound :
      (b : Bool) (w : World C) → w.timers ≡ 0 → IsSound (set_state req_sent (sconfreq cb b w))
  sconfreq-IsSound b w h = ground (arith, sconfreq_effect b w)

  pub sdata_effect :
      (code id : ℕ) (body : List ℕ) (w : World C)
      → ((sdata cb code id body w).fsm ≡ w.fsm) × ((sdata cb code id body w).timers ≡ w.timers)
  unfolding sdata
  sdata_effect code id body w = (refl, refl)

  send_termreq_effect :
      (w : World C)
      → ((send_termreq cb w).fsm.state ≡ w.fsm.state)
        × ((send_termreq cb w).fsm.seen_ack ≡ w.fsm.seen_ack)
        × ((send_termreq cb w).timers ≡ w.timers)
  unfolding send_termreq
  send_termreq_effect w = (refl, refl, refl)

  begin_terminate_effect :
      (w : World C)
      → ((begin_terminate cb w).fsm.seen_ack ≡ w.fsm.seen_ack)
        × ((begin_terminate cb w).timers
            ≡ (if is_opened w.fsm.state then w.timers else w.timers - 1))
  unfolding begin_terminate
  begin_terminate_effect w = ground arith

  -- From a state with a timer, or from `opened`.
  abbrev IsLive : State → Type 0
  IsLive s = (timed s ≡ 1) ⊎ (s ≡ opened)

  abbrev finish_in : State → World C → World C
  finish_in s w = call cb.finished (set_state s (begin_terminate cb w))

  module _ (keeps : KeepsSound cb) where
    terminate-closing :
        (w : World C) → IsSound w → IsLive w.fsm.state → IsSound (terminate_layer cb closing w)
    unfolding terminate_layer
    terminate-closing w h l =
        ground (
          arith,
          begin_terminate_effect w,
          keeps.finished (set_state closed (begin_terminate cb w)),
        )

    terminate-stopping :
        (w : World C) → IsSound w → IsLive w.fsm.state → IsSound (terminate_layer cb stopping w)
    unfolding terminate_layer
    terminate-stopping w h l =
        ground (
          arith,
          begin_terminate_effect w,
          keeps.finished (set_state stopped (begin_terminate cb w)),
        )

    pub lowerup-IsSound : (w : World C) → IsSound w → IsSound (lowerup cb w)
    unfolding lowerup
    lowerup-IsSound w h = ground (arith, sconfreq_effect false w)

    pub lowerdown-IsSound : (w : World C) → IsSound w → IsSound (lowerdown cb w)
    unfolding lowerdown
    lowerdown-IsSound w h = ground (arith, keeps.starting (set_state starting w))

    restart-IsSound : (w : World C) → IsSound w → IsSound (restart cb w)
    restart-IsSound w h = ground (arith, lowerdown-IsSound w h, lowerup-IsSound (lowerdown cb w))

    pub open_layer-IsSound : (w : World C) → IsSound w → IsSound (open_layer cb w)
    unfolding open_layer
    open_layer-IsSound w h = ground (
      arith,
      keeps.starting (set_state starting w),
      sconfreq_effect false w,
      restart-IsSound w h,
      restart-IsSound (set_state stopping w),
    )

    pub close_layer-IsSound :
        (reason : List ℕ) (w : World C) → IsSound w → IsSound (close_layer cb reason w)
    unfolding close_layer
    close_layer-IsSound reason w h =
        let f = w.fsm in
        ground (arith, terminate-closing (record w { fsm = record f { term_reason = reason } }))

    pub protreject-IsSound : (w : World C) → IsSound w → IsSound (protreject cb w)
    unfolding protreject
    protreject-IsSound w h = ground (
      arith,
      terminate-stopping w h,
      keeps.finished (set_state closed w),
      keeps.finished (set_state stopped w),
      keeps.finished (set_state closed (clear_timer w)),
      keeps.finished (set_state stopped (clear_timer w)),
    )

    -- The callout has been taken off the list when the handler runs.
    pub timeout-IsSound :
        (w : World C) → IsSound w → 0 < w.timers → IsSound (timeout cb (clear_timer w))
    unfolding timeout
    timeout-IsSound w h fired = ground (
      arith,
      keeps.finished (set_state closed (clear_timer w)),
      keeps.finished (set_state stopped (clear_timer w)),
      send_termreq_effect (clear_timer w),
      sconfreq_effect true (tell cb.retransmit (clear_timer w)),
    )
