-- ===== src/Lcp/Alive.antt =====
-- The echo requests of pppd/lcp.c over time: a peer that is silent, and one that answers.
use ppp.Prelude.{
  ◌/◌, ◌%◌, ℕ, zero, suc, ◌+◌, ◌-◌, ◌<◌, ◌≤◌, ◌≡◌, refl, Bool, true, false, not, ◌&&◌, Option, List,
  [], ◌∷◌, length, leb, ◌==◌, if◌then◌else◌, arith, is_zero,
}
use ppp.Fsm.Defs.{closing, opened, World, Callbacks}
use ppp.Fsm.Send.{has_flag, sdata, begin_terminate, terminate_layer, send_termreq}
use ppp.Fsm.Events.{close_layer}
use ppp.Lcp.Options.{LcpOptions}
use ppp.Lcp.Nak.{long_of}
use ppp.Lcp.Echo.{
  Echo, delayed_up, Settings, close, link_failure, detect, echo_request, send_echo_request,
  echo_check, echo_timeout, received_echo_reply,
}

plus_zero : (n : ℕ) → n + 0 ≡ n
plus_zero n = omega arith

zero_plus : (n : ℕ) → 0 + n ≡ n
zero_plus n = omega arith

plus_suc : (n k : ℕ) → n + suc k ≡ (n + 1) + k
plus_suc n k = omega arith

-- An Echo-Request: address, control, protocol, code 9, its number, the length 8, and our magic
-- number.
abbrev pub echo_frame : ℕ → ℕ → ℕ → List ℕ
echo_frame protocol magic number =
    0xff
    ∷ 0x03
    ∷ (protocol / 256 % 256)
    ∷ (protocol % 256)
    ∷ 9
    ∷ (number % 256)
    ∷ 0
    ∷ 8
    ∷ (magic / 16777216 % 256)
    ∷ (magic / 65536 % 256)
    ∷ (magic / 256 % 256)
    ∷ (magic % 256)
    ∷ []

-- The frames `sent`, and behind them in time `k` Echo-Requests whose numbers count up.
unfoldable pub with_requests : ℕ → ℕ → ℕ → ℕ → List (List ℕ) → List (List ℕ)
with_requests protocol magic zero number sent = sent
with_requests protocol magic (suc k) number sent =
    with_requests protocol magic k (number + 1) (echo_frame protocol magic number ∷ sent)

module _ {D : Type 0} (cb : Callbacks (Echo D)) (new_phase cancel_delayed_up : D → D)
    (gotoptions : D → LcpOptions) (pkts_in : D → Option ℕ) (settings : Settings)
    (reason : List ℕ) where
  -- The callout list runs `LcpEchoTimeout` if one is pending, having taken it off.
  unfoldable pub echo_fire : World (Echo D) → World (Echo D)
  echo_fire w =
      let e = w.client in
      if e.timers == 0
      then w
      else echo_timeout cb new_phase cancel_delayed_up gotoptions pkts_in settings reason
          (record w { client = record e { timers = e.timers - 1 } })

  -- `n` intervals with nothing from the peer.
  unfoldable pub silence : ℕ → World (Echo D) → World (Echo D)
  silence zero w = w
  silence (suc n) w = silence n (echo_fire w)

  -- LCP is open, `n` requests have no reply yet, and the next interval runs.
  pub record Waits (n : ℕ) (o : D) (w : World (Echo D)) : Type 0 where
    pub open' : w.fsm.state ≡ opened
    pub pending : w.client.pending ≡ n
    pub running : w.client.running ≡ true
    pub timed : 0 < w.client.timers
    pub same : w.client.other ≡ o
    pub terminates : is_zero w.fsm.maxtermtransmits ≡ false
    pub in_time : has_flag w.fsm delayed_up ≡ false

  echo_fire-Waits :
      (n : ℕ) (o : D) (w : World (Echo D))
      → settings.adaptive ≡ false
      → n < settings.fails
      → Waits n o w
      → Waits (n + 1) o (echo_fire w)
  unfolding echo_fire echo_timeout echo_check send_echo_request detect echo_request sdata
  echo_fire-Waits n o w plain early h = ground arith

  echo_fire-sends :
      (n : ℕ) (o : D) (w : World (Echo D))
      → ((c : Echo D) → 8 ≤ cb.peer_mru c)
      → settings.adaptive ≡ false
      → n < settings.fails
      → Waits n o w
      → ((echo_fire w).sent
          ≡ echo_frame w.fsm.protocol (gotoptions o).magicnumber w.client.number ∷ w.sent)
        × ((echo_fire w).client.number ≡ w.client.number + 1)
        × ((echo_fire w).fsm.protocol ≡ w.fsm.protocol)
  unfolding echo_fire echo_timeout echo_check send_echo_request detect echo_request sdata
  echo_fire-sends n o w roomy plain early h =
      let e = w.client in
      ground (arith, h.same, roomy (record e { timers = e.timers - 1; running = false }))

  silence-sends :
      (k n : ℕ) (o : D) (w : World (Echo D))
      → ((c : Echo D) → 8 ≤ cb.peer_mru c)
      → settings.adaptive ≡ false
      → n + k ≤ settings.fails
      → Waits n o w
      → (silence k w).sent
        ≡ with_requests w.fsm.protocol (gotoptions o).magicnumber k w.client.number w.sent
  unfolding silence with_requests echo_fire
  silence-sends zero n o w roomy plain early h = refl
  silence-sends (suc k) n o w roomy plain early h =
      let (sent, number, protocol) = echo_fire-sends n o w roomy plain (omega arith) h in
      let rest =
        silence-sends k (n + 1) o (echo_fire w) roomy plain (omega arith)
          (echo_fire-Waits n o w plain (omega arith) h) in
      rw (sent, number, protocol) at rest

  begin_terminate-opened :
      (w : World (Echo D))
      → w.fsm.state ≡ opened
      → (begin_terminate cb w).fsm.retransmits ≡ w.fsm.maxtermtransmits
  unfolding begin_terminate send_termreq sdata
  begin_terminate-opened w h = ground arith

  close_layer-opened :
      (w : World (Echo D))
      → w.fsm.state ≡ opened
      → is_zero w.fsm.maxtermtransmits ≡ false
      → (close_layer cb reason w).fsm.state ≡ closing
  unfolding close_layer terminate_layer
  close_layer-opened w h t =
      let f = w.fsm in
      let v = record w { fsm = record f { term_reason = reason } } in
      ground (arith, begin_terminate-opened v)

  close-opened :
      (w : World (Echo D))
      → w.fsm.state ≡ opened
      → is_zero w.fsm.maxtermtransmits ≡ false
      → has_flag w.fsm delayed_up ≡ false
      → (close cb new_phase cancel_delayed_up gotoptions pkts_in settings reason w).fsm.state
        ≡ closing
  unfolding close
  close-opened w h t d =
      let e = w.client in
      let v = record w { client = record e { other = new_phase e.other } } in
      ground (arith, close_layer-opened v)

  echo_fire_fails :
      (n : ℕ) (o : D) (w : World (Echo D))
      → settings.adaptive ≡ false
      → 0 < settings.fails
      → settings.fails ≤ n
      → Waits n o w
      → (echo_fire w).fsm.state ≡ closing
  unfolding echo_fire echo_timeout echo_check send_echo_request detect echo_request link_failure
  echo_fire_fails n o w plain some_fails late h =
      let e = w.client in
      let v = record w { client = record e { timers = e.timers - 1; running = false } } in
      ground (arith, close-opened v h.open' h.terminates h.in_time)

  silence-Waits :
      (k n : ℕ) (o : D) (w : World (Echo D))
      → settings.adaptive ≡ false
      → n + k ≤ settings.fails
      → Waits n o w
      → Waits (n + k) o (silence k w)
  unfolding silence
  silence-Waits zero n o w plain early h = rw (plus_zero n) h
  silence-Waits (suc k) n o w plain early h = rw (plus_suc n k) (
      silence-Waits k (n + 1) o (echo_fire w) plain (omega arith)
        (echo_fire-Waits n o w plain (omega arith) h))

  silence-Waits-start :
      (k : ℕ) (o : D) (w : World (Echo D))
      → settings.adaptive ≡ false
      → k ≤ settings.fails
      → Waits 0 o w
      → Waits k o (silence k w)
  silence-Waits-start k o w plain early h =
      let waits = silence-Waits k 0 o w plain (omega arith) h in rw (zero_plus k) at waits

  silence_last : (k : ℕ) (w : World (Echo D)) → silence (suc k) w ≡ echo_fire (silence k w)
  unfolding silence
  silence_last zero w = refl
  silence_last (suc k) w = silence_last k (echo_fire w)

  -- A peer that is silent is found out in just the number of intervals that the option says, and
  -- one more: until then LCP stays open and sends in each interval one Echo-Request, the numbers
  -- counting up, with our magic number, and nothing else; and then LCP is closing. The conditions:
  -- echo requests are on, not adaptive, and at their start; LCP sends Terminate-Requests and is not
  -- waiting to be brought up; and the peer's MRU has room for 8 bytes.
  pub silence_closes :
      (o : D) (w : World (Echo D))
      → ((c : Echo D) → 8 ≤ cb.peer_mru c)
      → settings.adaptive ≡ false
      → 0 < settings.fails
      → Waits 0 o w
      → Waits settings.fails o (silence settings.fails w)
        × ((silence settings.fails w).sent
            ≡ with_requests w.fsm.protocol
                (gotoptions o).magicnumber
                settings.fails
                w.client.number
                w.sent)
        × ((silence (suc settings.fails) w).fsm.state ≡ closing)
  silence_closes o w roomy plain some_fails h =
      let last = silence-Waits-start settings.fails o w plain (omega arith) h in
      (
        last,
        silence-sends settings.fails 0 o w roomy plain (omega arith) h,
        rw (silence_last settings.fails w) (
            echo_fire_fails settings.fails o (silence settings.fails w) plain some_fails
              (omega arith) last),
      )

  -- A reply that is long enough and not our own.
  unfoldable pub is_answer : D → List ℕ → Bool
  is_answer o body =
      let go = gotoptions o in
      leb 4 (length body) && not (go.neg_magicnumber && (long_of body == go.magicnumber))

  -- Rounds of some silent intervals and a reply each.
  unfoldable pub replies : List (ℕ × List ℕ) → World (Echo D) → World (Echo D)
  replies [] w = w
  replies ((k, body) ∷ rounds) w = replies rounds (
      received_echo_reply cb new_phase cancel_delayed_up gotoptions pkts_in settings body
        (silence k w))

  abbrev pub AllInTime : D → List (ℕ × List ℕ) → Type 0
  AllInTime o [] = Unit
  AllInTime o ((k, body) ∷ rounds) =
      (k ≤ settings.fails) × ((is_answer o body ≡ true) × AllInTime o rounds)

  reply-Waits :
      (n : ℕ) (o : D) (body : List ℕ) (w : World (Echo D))
      → is_answer o body ≡ true
      → Waits n o w
      → Waits 0 o
          (received_echo_reply cb new_phase cancel_delayed_up gotoptions pkts_in settings body w)
  unfolding received_echo_reply is_answer
  reply-Waits n o body w a h = rw (h.same) (ground arith)

  -- A peer that answers in time keeps LCP open: after any number of rounds of silent intervals, no
  -- more in each than the option says, and a reply that is not our own, LCP is open, no request is
  -- without a reply, and the next interval runs. The conditions: echo requests are on, not
  -- adaptive, and at their start; and LCP sends Terminate-Requests and is not waiting to be brought
  -- up.
  pub replies-Waits :
      (o : D) (rounds : List (ℕ × List ℕ)) (w : World (Echo D))
      → settings.adaptive ≡ false
      → AllInTime o rounds
      → Waits 0 o w
      → Waits 0 o (replies rounds w)
  unfolding replies
  replies-Waits o [] w plain a h = h
  replies-Waits o ((k, body) ∷ rounds) w plain a h =
      let quiet = silence-Waits-start k o w plain a.0 h in
      replies-Waits o rounds _ plain a.1.1 (reply-Waits k o body (silence k w) a.1.0 quiet)
