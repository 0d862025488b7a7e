-- ===== src/Chap/Calls.antt =====
-- The callouts of both ends of pppd/chap.c in the calls that concern the client, and in `chap_input`.
use ppp.Prelude.{
  ℕ, ◌+◌, ◌-◌, ◌*◌, true, false, Option, none, some, List, [], ◌∷◌, arith, if◌then◌else◌, take,
}
use ppp.Chap.Defs.{Digest, World, Auth, find_digest, headerlen, no_flags, set_server, set_client}
use ppp.Chap.Client.{
  settle, auth_with_peer, start_client, client_timeout, respond, send_response, handle_status,
  dispatch, input, protrej,
}
use ppp.Chap.Timers.{IsArmed, AllArmed, AllArmed-if, KeepsArmed, handle_response-IsArmed}

module _ {C : Type 0} (auth : Auth C) (keeps : KeepsArmed auth) where
  start_client-IsArmed :
      (name : List ℕ) (w : World C) (dp : Option (Digest C))
      → IsArmed w
      → AllArmed (start_client name w dp)
  unfolding start_client
  start_client-IsArmed name w none h = tt
  start_client-IsArmed name w (some dp) h = ground arith

  pub auth_with_peer-IsArmed :
      (name : List ℕ) (code : ℕ) (w : World C) → IsArmed w → AllArmed (auth_with_peer name code w)
  unfolding auth_with_peer
  auth_with_peer-IsArmed name code w h =
      AllArmed-if w.client.flags.started _ _ (λ s. h)
        (λ s. start_client-IsArmed name w (find_digest code w.chap_digests) h)

  respond-IsArmed :
      (id : ℕ) (body : List ℕ) (w : World C) → IsArmed w → IsArmed (respond auth id body w)
  unfolding respond send_response
  respond-IsArmed id [] w h = h
  respond-IsArmed id (_ ∷ []) w h = h
  respond-IsArmed id (n ∷ b ∷ rest) w h = ground arith

  handle_status-IsArmed :
      (code id : ℕ) (body : List ℕ) (w : World C)
      → IsArmed w
      → IsArmed (handle_status auth code id body w)
  unfolding handle_status
  handle_status-IsArmed code id body w h =
      let f = w.client.flags in
      let (good, c) = settle code id body w.client.digest w.env in
      let w1 = record w { client_timers = w.client_timers - 1; env = c } in
      let finished = record f { done = true; timeout_pending = false } in
      let failed = record finished { failed = true } in
      ground (
        arith,
        keeps.withpeer_success w.client.digest.code (set_client finished w1),
        keeps.withpeer_fail (set_client failed w1),
      )

  pub client_timeout-IsArmed : (w : World C) → IsArmed w → IsArmed (client_timeout auth w)
  unfolding client_timeout
  client_timeout-IsArmed w h =
      let f = w.client.flags in
      keeps.withpeer_fail
        (set_client (record f { timeout_pending = false; done = true; failed = true }) w)
        (record {
          one_timer = h.one_timer;
          pending_up = h.pending_up;
          pending_started = h.pending_started;
          valid_started = h.valid_started;
        })

  pub protrej-IsArmed : (w : World C) → IsArmed w → IsArmed (protrej auth w)
  unfolding protrej
  protrej-IsArmed w h =
      let g = w.server.flags in
      let timers = if g.timeout_pending then w.server_timers - 1 else w.server_timers in
      let w1 =
        set_server (record g { timeout_pending = false }) (record w { server_timers = timers }) in
      let w2 = if g.started then auth.peer_fail (set_server no_flags w1) else w1 in
      let f = w2.client.flags in
      let h1 : IsArmed w1 = ground arith in
      let h2 : IsArmed w2 = ground (arith, keeps.peer_fail (set_server no_flags w1)) in
      ground (arith, keeps.withpeer_fail (set_client (record f { started = false }) w2))

  dispatch-IsArmed :
      (code id : ℕ) (body : List ℕ) (w : World C)
      → IsArmed w
      → IsArmed (dispatch auth code id body w)
  unfolding dispatch
  dispatch-IsArmed code id body w h = ground (
    arith,
    respond-IsArmed id body w h,
    handle_response-IsArmed auth keeps id body w h,
    handle_status-IsArmed code id body w h,
  )

  pub input-IsArmed : (packet : List ℕ) (w : World C) → IsArmed w → IsArmed (input auth packet w)
  unfolding input
  input-IsArmed (code ∷ id ∷ hi ∷ lo ∷ rest) w h =
      ground (arith, dispatch-IsArmed code id (take (hi * 256 + lo - headerlen) rest) w h)
  input-IsArmed _ w h = h
