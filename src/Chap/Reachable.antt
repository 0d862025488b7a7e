-- ===== src/Chap/Reachable.antt =====
-- What holds of CHAP throughout its life.
use ppp.Prelude.{◌-◌, ◌≡◌, List, [], ◌∷◌, arith}
use ppp.Chap.Defs.{World, Auth, no_flags, register_digest}
use ppp.Chap.Run.{
  Event, register, peer, with_peer, up, down, server_expire, client_expire, reject, receive,
  elsewhere, fire_server, fire_client, step, run,
}
use ppp.Chap.Timers.{
  IsArmed, AllArmed, AllArmed-bind, KeepsArmed, server_timeout-IsArmed, lowerup-IsArmed,
  lowerdown-IsArmed, auth_peer-IsArmed,
}
use ppp.Chap.Calls.{client_timeout-IsArmed, protrej-IsArmed, input-IsArmed, auth_with_peer-IsArmed}

module _ {C : Type 0} (auth : Auth C) (keeps : KeepsArmed auth) where
  fire_server-IsArmed : (w : World C) → IsArmed w → IsArmed (fire_server auth w)
  unfolding fire_server
  fire_server-IsArmed w h =
      ground (
        arith,
        server_timeout-IsArmed auth keeps (record w { server_timers = w.server_timers - 1 }),
      )

  fire_client-IsArmed : (w : World C) → IsArmed w → IsArmed (fire_client auth w)
  unfolding fire_client
  fire_client-IsArmed w h =
      ground (
        arith,
        client_timeout-IsArmed auth keeps (record w { client_timers = w.client_timers - 1 }),
      )

  step-IsArmed : (e : Event C) (w : World C) → IsArmed w → AllArmed (step auth e w)
  unfolding step
  step-IsArmed (register dp) w h = unfold register_digest in ground arith
  step-IsArmed (peer name code) w h = auth_peer-IsArmed auth keeps name code w h
  step-IsArmed (with_peer name code) w h = auth_with_peer-IsArmed auth keeps name code w h
  step-IsArmed up w h = ground (arith, lowerup-IsArmed auth keeps w h)
  step-IsArmed down w h = lowerdown-IsArmed auth keeps w h
  step-IsArmed server_expire w h = fire_server-IsArmed w h
  step-IsArmed client_expire w h = fire_client-IsArmed w h
  step-IsArmed reject w h = protrej-IsArmed auth keeps w h
  step-IsArmed (receive packet) w h = input-IsArmed auth keeps packet w h
  step-IsArmed (elsewhere g) w h = ground arith

  run_from-IsArmed : (es : List (Event C)) (w : World C) → IsArmed w → AllArmed (run auth es w)
  unfolding run
  run_from-IsArmed [] w h = h
  run_from-IsArmed (e ∷ es) w h =
      AllArmed-bind (step auth e w) (run auth es) (step-IsArmed e w h) (run_from-IsArmed es)

  -- After any sequence of events from `chap_init` on, unless `fatal` has ended the program: a
  -- callout of `chap_server_timeout` is pending exactly once if `TIMEOUT_PENDING` is set and not at
  -- all otherwise, it is set only while the link is up and an authentication has been started, and a
  -- challenge is valid only in a started one; provided that the link comes up only when it is
  -- down, that the reports to auth.c of failures and of our own success keep this, and that the
  -- report of the peer's success leaves the server and its callouts alone.
  pub run-IsArmed :
      (es : List (Event C)) (w : World C)
      → w.server.flags ≡ no_flags
      → w.server_timers ≡ 0
      → AllArmed (run auth es w)
  run-IsArmed es w f t = run_from-IsArmed es w (ground arith)
