-- ===== src/Upap/Client.antt =====
-- The client's end of pppd/upap.c: requests sent, repeated and given up.
use ppp.Prelude.{
  ℕ, zero, suc, ℤ, pos, negsuc, ◌+◌, ◌≡◌, ◌<◌, ◌≤◌, ◌-◌, true, List, [], ◌∷◌, arith, if◌then◌else◌,
  ◌*◌, take, Option, none, some,
}
use ppp.Upap.Defs.{
  ClientState, World, Auth, Upap, ServerState, authack, authnak, set_client, set_server,
}
use ppp.Upap.Ops.{
  is_authreq, is_listen, sauthreq, authwithpeer, authpeer, lowerup, lowerdown, timeout, reqtimeout,
  protrej, input, rauthreq, rauthreq_at, rauthack, rauthnak, sresp, dispatch, verdict, conclude,
  answer_request, answer_parsed, parse_request,
}
use ppp.Upap.Run.{
  Event, with_peer, peer, up, down, expire, req_expire, reject, receive, elsewhere, start, fire,
  fire_req, step, run,
}

-- How many requests one authentication may send: the first is sent whatever the limit.
abbrev pub allowed : ℤ → ℕ
allowed (pos zero) = 1
allowed (pos (suc n)) = suc n
allowed (negsuc n) = 1

module _ {C : Type 0} where
  -- A request that is outstanding will be repeated or given up: a callout is pending. Before the
  -- first request of an authentication, none has been counted.
  pub record IsTimed (w : World C) : Type 0 where
    pub watched : is_authreq w.upap.clientstate ≡ true → 0 < w.timers
    pub uncounted : w.upap.clientstate ≡ ClientState.pending → w.upap.transmits ≡ 0
    pub counted :
        is_authreq w.upap.clientstate ≡ true → w.upap.transmits ≤ allowed w.upap.maxtransmits

-- The reports to auth.c keep the invariant themselves.
pub record KeepsTimed {C : Type 0} (auth : Auth C) : Type 0 where
  pub withpeer_fail : (w : World C) → IsTimed w → IsTimed (auth.withpeer_fail w)
  pub withpeer_success : (w : World C) → IsTimed w → IsTimed (auth.withpeer_success w)
  pub peer_fail : (w : World C) → IsTimed w → IsTimed (auth.peer_fail w)
  pub peer_success : (user : List ℕ) (w : World C) → IsTimed w → IsTimed (auth.peer_success user w)

module _ {C : Type 0} where
  lowerup-IsTimed : (w : World C) → IsTimed w → IsTimed (lowerup w)
  unfolding lowerup
  lowerup-IsTimed w h = ground arith

  lowerdown-IsTimed : (w : World C) → IsTimed w → IsTimed (lowerdown w)
  unfolding lowerdown
  lowerdown-IsTimed w h = ground arith

  authpeer-IsTimed : (w : World C) → IsTimed w → IsTimed (authpeer w)
  unfolding authpeer
  authpeer-IsTimed w h = ground arith

  authwithpeer-IsTimed :
      (user passwd : List ℕ) (w : World C) → IsTimed w → IsTimed (authwithpeer user passwd w)
  unfolding authwithpeer
  authwithpeer-IsTimed user passwd w h = ground arith

  module _ (auth : Auth C) (keeps : KeepsTimed auth) where
    set_server-IsTimed : (s : ServerState) (w : World C) → IsTimed w → IsTimed (set_server s w)
    set_server-IsTimed s w h = ground arith

    timeout-IsTimed :
        (w : World C)
        → IsTimed w
        → 0 < w.timers
        → IsTimed (timeout auth (record w { timers = w.timers - 1 }))
    unfolding timeout sauthreq
    timeout-IsTimed w h fired =
        let w' = record w { timers = w.timers - 1 } in
        ground (arith, keeps.withpeer_fail (set_client ClientState.bad_auth w'))

    reqtimeout-IsTimed : (w : World C) → IsTimed w → IsTimed (reqtimeout auth w)
    unfolding reqtimeout
    reqtimeout-IsTimed w h =
        ground
          (arith, keeps.peer_fail w h, set_server-IsTimed ServerState.bad_auth (auth.peer_fail w))

    protrej-IsTimed : (w : World C) → IsTimed w → IsTimed (protrej auth w)
    unfolding protrej
    protrej-IsTimed w h =
        let w1 = if is_authreq w.upap.clientstate then auth.withpeer_fail w else w in
        let w2 = if is_listen w1.upap.serverstate then auth.peer_fail w1 else w1 in
        let h1 : IsTimed w1 = ground (arith, keeps.withpeer_fail w h) in
        let h2 : IsTimed w2 = ground (arith, keeps.peer_fail w1 h1) in lowerdown-IsTimed w2 h2

    conclude-IsTimed :
        (retcode : ℕ) (user : List ℕ) (w : World C)
        → IsTimed w
        → IsTimed (conclude auth retcode user w)
    unfolding conclude
    conclude-IsTimed retcode user w h = ground (
      arith,
      keeps.peer_success user (set_server ServerState.open' w),
      keeps.peer_fail (set_server ServerState.bad_auth w),
    )

    sresp-IsTimed :
        (code id : ℕ) (msg : List ℕ) (c : C) (w : World C)
        → IsTimed w
        → IsTimed (sresp code id msg (record w { client = c }))
    unfolding sresp
    sresp-IsTimed code id msg c w h = ground arith

    answer_request-IsTimed :
        (id : ℕ) (user passwd : List ℕ) (w : World C)
        → IsTimed w
        → IsTimed (answer_request auth id user passwd w)
    unfolding answer_request
    answer_request-IsTimed id user passwd w h =
        let (retcode, msg, c) = verdict auth w.client user passwd in
        conclude-IsTimed retcode user _ (sresp-IsTimed retcode id msg c w h)

    answer_parsed-IsTimed :
        (id : ℕ) (r : Option (List ℕ × List ℕ)) (w : World C)
        → IsTimed w
        → IsTimed (answer_parsed auth id r w)
    unfolding answer_parsed
    answer_parsed-IsTimed id none w h = h
    answer_parsed-IsTimed id (some (user, passwd)) w h = answer_request-IsTimed id user passwd w h

    rauthreq_at-IsTimed :
        (s : ServerState) (id : ℕ) (body : List ℕ) (w : World C)
        → IsTimed w
        → IsTimed (rauthreq_at auth s id body w)
    unfolding rauthreq_at
    rauthreq_at-IsTimed ServerState.open' id body w h = sresp-IsTimed authack id [] w.client w h
    rauthreq_at-IsTimed ServerState.bad_auth id body w h = sresp-IsTimed authnak id [] w.client w h
    rauthreq_at-IsTimed ServerState.listen id body w h =
        answer_parsed-IsTimed id (parse_request body) w h
    rauthreq_at-IsTimed _ id body w h = h

    rauthreq-IsTimed :
        (id : ℕ) (body : List ℕ) (w : World C) → IsTimed w → IsTimed (rauthreq auth id body w)
    unfolding rauthreq
    rauthreq-IsTimed id body w h = rauthreq_at-IsTimed w.upap.serverstate id body w h

    rauthack-IsTimed : (body : List ℕ) (w : World C) → IsTimed w → IsTimed (rauthack auth body w)
    unfolding rauthack
    rauthack-IsTimed body w h =
        ground (arith, keeps.withpeer_success (set_client ClientState.open' w))

    rauthnak-IsTimed : (body : List ℕ) (w : World C) → IsTimed w → IsTimed (rauthnak auth body w)
    unfolding rauthnak
    rauthnak-IsTimed body w h =
        ground (arith, keeps.withpeer_fail (set_client ClientState.bad_auth w))

    input-IsTimed : (packet : List ℕ) (w : World C) → IsTimed w → IsTimed (input auth packet w)
    unfolding input dispatch
    input-IsTimed (code ∷ id ∷ hi ∷ lo ∷ rest) w h =
        let body = take (hi * 256 + lo - 4) rest in
        ground (
          arith,
          rauthreq-IsTimed id body w h,
          rauthack-IsTimed body w h,
          rauthnak-IsTimed body w h,
        )
    input-IsTimed _ w h = h

    fire-IsTimed : (w : World C) → IsTimed w → IsTimed (fire auth w)
    unfolding fire
    fire-IsTimed w h = ground (arith, timeout-IsTimed w h)

    fire_req-IsTimed : (w : World C) → IsTimed w → IsTimed (fire_req auth w)
    unfolding fire_req
    fire_req-IsTimed w h =
        ground (arith, reqtimeout-IsTimed (record w { req_timers = w.req_timers - 1 }))

    step-IsTimed : (e : Event C) (w : World C) → IsTimed w → IsTimed (step auth e w)
    unfolding step
    step-IsTimed (with_peer user passwd) w h = authwithpeer-IsTimed user passwd w h
    step-IsTimed peer w h = authpeer-IsTimed w h
    step-IsTimed up w h = lowerup-IsTimed w h
    step-IsTimed down w h = lowerdown-IsTimed w h
    step-IsTimed expire w h = fire-IsTimed w h
    step-IsTimed req_expire w h = fire_req-IsTimed w h
    step-IsTimed reject w h = protrej-IsTimed w h
    step-IsTimed (receive packet) w h = input-IsTimed packet w h
    step-IsTimed (elsewhere g) w h = ground arith

    run_from-IsTimed : (es : List (Event C)) (w : World C) → IsTimed w → IsTimed (run auth es w)
    unfolding run
    run_from-IsTimed [] w h = h
    run_from-IsTimed (e ∷ es) w h = run_from-IsTimed es (step auth e w) (step-IsTimed e w h)

    -- After any sequence of events from `upap_init` on, a request that is outstanding has a callout
    -- pending, and no more requests have been counted than `us_maxtransmits`, or one if that is not
    -- positive; provided that the reports to auth.c keep this themselves.
    pub run-IsTimed : (u : Upap) (c : C) (es : List (Event C)) → IsTimed (run auth es (start u c))
    unfolding start
    run-IsTimed u c es = run_from-IsTimed es (start u c) (ground arith)
