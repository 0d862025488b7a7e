-- ===== src/Lcp/Echo.antt =====
-- pppd/lcp.c: `lcp_close`, and the echo requests that find out whether the peer is alive.
use ppp.Prelude.{
  ℕ, ◌+◌, ◌-◌, ◌%◌, Bool, true, false, not, ◌&&◌, ◌||◌, Option, none, some, List, [], length, ltb,
  leb, ◌==◌, if◌then◌else◌, bit_and, bit_xor,
}
use ppp.Fsm.Defs.{State, stopped, World, Callbacks}
use ppp.Fsm.Send.{set_state, call, has_flag, is_opened, opt_passive, opt_silent, sdata}
use ppp.Fsm.Events.{close_layer}
use ppp.Lcp.Options.{LcpOptions, put_long}
use ppp.Lcp.Nak.{long_of}

-- The variables of the echo functions; `timers` counts the pending callouts of `LcpEchoTimeout`,
-- and `other` is the state of the rest of the program.
pub record Echo (D : Type 0) : Type 0 where
  pub pending : ℕ
  pub number : ℕ
  pub running : Bool
  pub timers : ℕ
  pub last_pkts_in : ℕ
  pub other : D

abbrev pub delayed_up : ℕ
delayed_up = 0x100

abbrev pub echoreq : ℕ
echoreq = 9

abbrev is_stopped : State → Bool
is_stopped stopped = true
is_stopped _ = false

-- The options `lcp_echo_fails`, `lcp_echo_interval` and `lcp_echo_adaptive`.
pub record Settings : Type 0 where
  pub fails : ℕ
  pub interval : ℕ
  pub adaptive : Bool

-- The callbacks of LCP; the change of the phase by `new_phase` with its guards; the cancelling of
-- `lcp_delayed_up`; `lcp_gotoptions`; and the packet count of `get_ppp_stats`, if it succeeds.
module _ {D : Type 0} (cb : Callbacks (Echo D)) (new_phase cancel_delayed_up : D → D)
    (gotoptions : D → LcpOptions) (pkts_in : D → Option ℕ) (settings : Settings) where
  abbrev change_other : (D → D) → World (Echo D) → World (Echo D)
  change_other g w = let e = w.client in record w { client = record e { other = g e.other } }

  abbrev pub undelay : World (Echo D) → World (Echo D)
  undelay w =
      if has_flag w.fsm delayed_up then set_state stopped (change_other cancel_delayed_up w) else w

  -- `lcp_close`.
  unfoldable pub close : List ℕ → World (Echo D) → World (Echo D)
  close reason w =
      let w1 = undelay (change_other new_phase w) in
      let w2 = close_layer cb reason w1 in
      let f2 = w2.fsm in
      let flagged = has_flag f2 opt_passive || has_flag f2 opt_silent || has_flag f2 delayed_up in
      if is_stopped w1.fsm.state && flagged
      then call cb.finished
          (record w2 { fsm = record f2 { flags = bit_xor f2.flags (bit_and f2.flags delayed_up) } })
      else w2

  -- `LcpLinkFailure`, with its reason.
  unfoldable pub link_failure : List ℕ → World (Echo D) → World (Echo D)
  link_failure reason w = if is_opened w.fsm.state then close reason w else w

  abbrev pub set_pending : ℕ → World (Echo D) → World (Echo D)
  set_pending n w = let e = w.client in record w { client = record e { pending = n } }

  -- The start of `LcpSendEchoRequest`: the peer has failed.
  unfoldable pub detect : List ℕ → World (Echo D) → World (Echo D)
  detect reason w =
      if not (settings.fails == 0) && leb settings.fails w.client.pending
      then set_pending 0 (link_failure reason w)
      else w

  -- The frame, if the machine is open.
  unfoldable pub echo_request : World (Echo D) → World (Echo D)
  echo_request w =
      let e = w.client in
      let magic = (gotoptions e.other).magicnumber in
      let c = record e { number = e.number + 1; pending = e.pending + 1 } in
      let w' = sdata cb echoreq (e.number % 256) (put_long magic []) w in
      if is_opened w.fsm.state then record w' { client = c } else w

  abbrev pub is_new : Option ℕ → ℕ → Bool
  is_new none last = false
  is_new (some n) last = not (n == last)

  abbrev pub count_or : Option ℕ → ℕ → ℕ
  count_or none last = last
  count_or (some n) last = n

  -- `LcpSendEchoRequest`.
  unfoldable pub send_echo_request : List ℕ → World (Echo D) → World (Echo D)
  send_echo_request reason w =
      let w1 = detect reason w in
      let e = w1.client in
      let traffic = pkts_in e.other in
      let seen = record e { last_pkts_in = count_or traffic e.last_pkts_in; pending = 0 } in
      if settings.adaptive && is_new traffic e.last_pkts_in
      then record w1 { client = seen }
      else echo_request w1

  -- `LcpEchoCheck`.
  unfoldable pub echo_check : List ℕ → World (Echo D) → World (Echo D)
  echo_check reason w =
      let w1 = send_echo_request reason w in
      let e = w1.client in
      if is_opened w1.fsm.state
      then record w1 { client = record e { running = true; timers = e.timers + 1 } }
      else w1

  -- `LcpEchoTimeout`, after the callout list has dropped the callout.
  unfoldable pub echo_timeout : List ℕ → World (Echo D) → World (Echo D)
  echo_timeout reason w =
      let e = w.client in
      if e.running
      then echo_check reason (record w { client = record e { running = false } })
      else w

  -- `lcp_received_echo_reply`, on the packet's body.
  unfoldable pub received_echo_reply : List ℕ → World (Echo D) → World (Echo D)
  received_echo_reply body w =
      let go = gotoptions w.client.other in
      if ltb (length body) 4
      then w
      else if go.neg_magicnumber && (long_of body == go.magicnumber)
      then w
      else set_pending 0 w

  -- `lcp_echo_lowerup` and `lcp_echo_lowerdown`.
  unfoldable pub echo_lowerup : List ℕ → World (Echo D) → World (Echo D)
  echo_lowerup reason w =
      let e = w.client in
      let w1 = record w { client = record e { pending = 0; number = 0; running = false } } in
      if settings.interval == 0 then w1 else echo_check reason w1

  unfoldable pub echo_lowerdown : World (Echo D) → World (Echo D)
  echo_lowerdown w =
      let e = w.client in
      if e.running
      then record w { client = record e { running = false; timers = e.timers - 1 } }
      else w
