-- ===== src/Upap/Ops.antt =====
-- pppd/upap.c: the entry points, the timers and the packets of PAP.
use ppp.Prelude.{
  ℕ, ◌+◌, ◌-◌, ◌*◌, ◌%◌, Bool, true, false, not, ◌&&◌, ◌||◌, Option, none, some, List, [], ◌∷◌,
  ◌++◌, length, take, drop, ltb, ◌==◌, if◌then◌else◌, reaches,
}
use ppp.Upap.Defs.{
  ClientState, ServerState, World, Auth, authreq, authack, authnak, headerlen, has_reqtimeout,
  packet, set_client, set_server,
}

abbrev pub is_authreq : ClientState → Bool
is_authreq ClientState.auth_req = true
is_authreq _ = false

abbrev pub is_listen : ServerState → Bool
is_listen ServerState.listen = true
is_listen _ = false

-- The password of a request, behind its user name.
unfoldable pub parse_password : List ℕ → List ℕ → Option (List ℕ × List ℕ)
parse_password user [] = none
parse_password user (plen ∷ rest) =
    if ltb (length rest) plen then none else some (user, take plen rest)

-- The user name and the password in a request, if it has both.
unfoldable pub parse_request : List ℕ → Option (List ℕ × List ℕ)
unfolding parse_password
parse_request [] = none
parse_request (ulen ∷ rest) =
    if ltb (length rest) (ulen + 1) then none else parse_password (take ulen rest) (drop ulen rest)

-- The message of an Ack or a Nak is cut short. A missing length, or the length 0, is let pass.
abbrev pub has_short_message : List ℕ → Bool
has_short_message [] = false
has_short_message (msglen ∷ rest) = ltb 0 msglen && ltb (length rest) msglen

module _ {C : Type 0} where
  -- `upap_sauthreq`. The length bytes hold the lengths modulo 256, the text is copied whole.
  unfoldable pub sauthreq : World C → World C
  sauthreq w =
      let u = w.upap in
      let id = (u.id + 1) % 256 in
      let body = (length u.user % 256) ∷ (u.user ++ ((length u.passwd % 256) ∷ u.passwd)) in
      record w {
        upap = record u {
          id = id;
          transmits = u.transmits + 1;
          clientstate = ClientState.auth_req;
        };
        timers = w.timers + 1;
        sent = packet authreq id body ∷ w.sent;
      }

  -- `upap_sresp`.
  unfoldable pub sresp : ℕ → ℕ → List ℕ → World C → World C
  sresp code id msg w = record w { sent = packet code id ((length msg % 256) ∷ msg) ∷ w.sent }

  start_client : ClientState → World C → World C
  unfolding sauthreq
  start_client ClientState.initial w = set_client ClientState.pending w
  start_client ClientState.pending w = set_client ClientState.pending w
  start_client _ w = sauthreq w

  unfoldable pub authwithpeer : List ℕ → List ℕ → World C → World C
  unfolding start_client
  authwithpeer user passwd w =
      let u = w.upap in
      start_client u.clientstate
        (record w { upap = record u { user = user; passwd = passwd; transmits = 0 } })

  -- The server waits for a request, for a limited time if one is set.
  abbrev pub await_request : World C → World C
  await_request w =
      let w' = set_server ServerState.listen w in
      if has_reqtimeout w.upap then record w' { req_timers = w.req_timers + 1 } else w'

  start_server : ServerState → World C → World C
  start_server ServerState.initial w = set_server ServerState.pending w
  start_server ServerState.pending w = set_server ServerState.pending w
  start_server _ w = await_request w

  unfoldable pub authpeer : World C → World C
  unfolding start_server
  authpeer w = start_server w.upap.serverstate w

  client_up : ClientState → World C → World C
  client_up ClientState.initial w = set_client ClientState.closed w
  client_up ClientState.pending w = sauthreq w
  client_up _ w = w

  server_up : ServerState → World C → World C
  server_up ServerState.initial w = set_server ServerState.closed w
  server_up ServerState.pending w = await_request w
  server_up _ w = w

  unfoldable pub lowerup : World C → World C
  unfolding client_up server_up sauthreq
  lowerup w = let w' = client_up w.upap.clientstate w in server_up w'.upap.serverstate w'

  unfoldable pub lowerdown : World C → World C
  lowerdown w =
      let u = w.upap in
      record w {
        upap = record u { clientstate = ClientState.initial; serverstate = ServerState.initial };
        timers = if is_authreq u.clientstate then w.timers - 1 else w.timers;
        req_timers =
            if is_listen u.serverstate && has_reqtimeout u then w.req_timers - 1 else w.req_timers;
      }

module _ {C : Type 0} (auth : Auth C) where
  -- `upap_timeout`, called with its callout off the list.
  unfoldable pub timeout : World C → World C
  timeout w =
      let u = w.upap in
      if not (is_authreq u.clientstate)
      then w
      else if reaches u.transmits u.maxtransmits
      then auth.withpeer_fail (set_client ClientState.bad_auth w)
      else sauthreq w

  -- `upap_reqtimeout`: the report is made before the state changes.
  unfoldable pub reqtimeout : World C → World C
  reqtimeout w =
      if is_listen w.upap.serverstate then set_server ServerState.bad_auth (auth.peer_fail w) else w

  unfoldable pub protrej : World C → World C
  protrej w =
      let w1 = if is_authreq w.upap.clientstate then auth.withpeer_fail w else w in
      let w2 = if is_listen w1.upap.serverstate then auth.peer_fail w1 else w1 in lowerdown w2

  -- The code and the message for a user: a good password counts only with a good number.
  unfoldable pub verdict : C → List ℕ → List ℕ → ℕ × List ℕ × C
  verdict c user passwd =
      let (checked, msg, c') = auth.check_passwd c user passwd in
      let refused = (checked == authack) && not (auth.auth_number c') in
      (if refused then authnak else checked, take 255 msg, c')

  -- The end of `upap_rauthreq`, after the answer: the report, and the cancelled wait.
  unfoldable pub conclude : ℕ → List ℕ → World C → World C
  conclude retcode user w =
      let w' =
        if retcode == authack
        then auth.peer_success user (set_server ServerState.open' w)
        else auth.peer_fail (set_server ServerState.bad_auth w) in
      if has_reqtimeout w'.upap then record w' { req_timers = w'.req_timers - 1 } else w'

  unfoldable pub answer_request : ℕ → List ℕ → List ℕ → World C → World C
  unfolding sresp
  answer_request id user passwd w =
      let (retcode, msg, c) = verdict w.client user passwd in
      conclude retcode user (sresp retcode id msg (record w { client = c }))

  unfoldable pub answer_parsed : ℕ → Option (List ℕ × List ℕ) → World C → World C
  answer_parsed id none w = w
  answer_parsed id (some (user, passwd)) w = answer_request id user passwd w

  unfoldable pub rauthreq_at : ServerState → ℕ → List ℕ → World C → World C
  rauthreq_at ServerState.open' id body w = sresp authack id [] w
  rauthreq_at ServerState.bad_auth id body w = sresp authnak id [] w
  rauthreq_at ServerState.listen id body w = answer_parsed id (parse_request body) w
  rauthreq_at _ id body w = w

  unfoldable pub rauthreq : ℕ → List ℕ → World C → World C
  rauthreq id body w = rauthreq_at w.upap.serverstate id body w

  unfoldable pub rauthack : List ℕ → World C → World C
  rauthack body w =
      if not (is_authreq w.upap.clientstate) || has_short_message body
      then w
      else auth.withpeer_success (set_client ClientState.open' w)

  unfoldable pub rauthnak : List ℕ → World C → World C
  rauthnak body w =
      if not (is_authreq w.upap.clientstate) || has_short_message body
      then w
      else auth.withpeer_fail (set_client ClientState.bad_auth w)

  unfoldable pub dispatch : ℕ → ℕ → List ℕ → World C → World C
  dispatch code id body w =
      if code == authreq
      then rauthreq id body w
      else if code == authack
      then rauthack body w
      else if code == authnak
      then rauthnak body w
      else w

  -- `upap_input`: a packet is a list of bytes.
  unfoldable pub input : List ℕ → World C → World C
  input (code ∷ id ∷ hi ∷ lo ∷ rest) w =
      let len = hi * 256 + lo in
      if ltb len headerlen
      then w
      else if ltb (length rest + headerlen) len
      then w
      else dispatch code id (take (len - headerlen) rest) w
  input _ w = w
