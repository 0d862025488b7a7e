-- ===== src/Chap/Timers.antt =====
-- The callouts of both ends of pppd/chap.c, in the calls that concern the server.
use ppp.Prelude.{
  ℕ, ◌≡◌, refl, Bool, true, false, Option, none, some, List, [], ◌∷◌, arith, if◌then◌else◌, take,
  drop,
}
use ppp.Chap.Defs.{Digest, World, Auth, find_digest, set_server, set_client}
use ppp.Chap.Server.{
  server_timeout, send_challenge, generate_challenge, auth_peer, check_response, send_status,
  check_session, conclude, answer_response, handle_response, peer_name, start_server,
}
use ppp.Chap.Client.{lowerup, lowerdown}

module _ {C : Type 0} where
  -- A repetition is pending exactly when the flag says so, and only while the link is up and an
  -- authentication has been started; so is a challenge.
  pub record IsArmed (w : World C) : Type 0 where
    pub one_timer : w.server_timers ≡ (if w.server.flags.timeout_pending then 1 else 0)
    pub pending_up : w.server.flags.timeout_pending ≡ true → w.server.flags.lowerup ≡ true
    pub pending_started : w.server.flags.timeout_pending ≡ true → w.server.flags.started ≡ true
    pub valid_started : w.server.flags.challenge_valid ≡ true → w.server.flags.started ≡ true

  abbrev pub AllArmed : Option (World C) → Type 0
  AllArmed none = Unit
  AllArmed (some w) = IsArmed w

  pub AllArmed-if :
      (b : Bool) (x y : Option (World C))
      → (b ≡ true → AllArmed x)
      → (b ≡ false → AllArmed y)
      → AllArmed (if b then x else y)
  AllArmed-if true x y f g = f refl
  AllArmed-if false x y f g = g refl

  pub AllArmed-bind :
      (r : Option (World C)) (k : World C → Option (World C))
      → AllArmed r
      → ((w : World C) → IsArmed w → AllArmed (k w))
      → AllArmed (elim r [ none ↦ none | some w ↦ k w ])
  AllArmed-bind none k h step = tt
  AllArmed-bind (some w) k h step = step w h

-- The reports of failures, and of our own success, keep the invariant; the report that the peer
-- was let in leaves the server and its callouts alone.
pub record KeepsArmed {C : Type 0} (auth : Auth C) : Type 0 where
  pub withpeer_fail : (w : World C) → IsArmed w → IsArmed (auth.withpeer_fail w)
  pub withpeer_success :
      (code : ℕ) (w : World C) → IsArmed w → IsArmed (auth.withpeer_success code w)
  pub peer_fail : (w : World C) → IsArmed w → IsArmed (auth.peer_fail w)
  pub same_server :
      (code : ℕ) (name : List ℕ) (w : World C) → (auth.peer_success code name w).server ≡ w.server
  pub same_timers :
      (code : ℕ) (name : List ℕ) (w : World C)
      → (auth.peer_success code name w).server_timers ≡ w.server_timers

module _ {C : Type 0} (auth : Auth C) (keeps : KeepsArmed auth) where
  -- With no callout pending, on a link that is up and for a started authentication.
  pub server_timeout-IsArmed :
      (w : World C)
      → w.server_timers ≡ 0
      → w.server.flags.lowerup ≡ true
      → w.server.flags.started ≡ true
      → IsArmed (server_timeout auth w)
  unfolding server_timeout send_challenge generate_challenge
  server_timeout-IsArmed w t up st =
      let f = w.server.flags in
      ground (
        arith,
        keeps.peer_fail (
            set_server
              (record f {
                timeout_pending = false;
                challenge_valid = false;
                done = true;
                failed = true;
              })
              w),
      )

  pub lowerup-IsArmed :
      (w : World C) → IsArmed w → w.server.flags.lowerup ≡ false → IsArmed (lowerup auth w)
  unfolding lowerup
  lowerup-IsArmed w h down =
      let f = w.client.flags in
      let g = w.server.flags in
      let w1 =
        set_server (record g { lowerup = true }) (set_client (record f { lowerup = true }) w) in
      ground (arith, server_timeout-IsArmed w1)

  pub lowerdown-IsArmed : (w : World C) → IsArmed w → IsArmed (lowerdown w)
  unfolding lowerdown
  lowerdown-IsArmed w h = ground arith

  check_response-IsArmed :
      (id : ℕ) (response raw : List ℕ) (w : World C)
      → IsArmed w
      → IsArmed (check_response auth id response raw w)
  unfolding check_response
  check_response-IsArmed id response raw w h = ground arith

  check_response_flags :
      (id : ℕ) (response raw : List ℕ) (w : World C)
      → ((check_response auth id response raw w).server.flags.timeout_pending ≡ false)
        × ((check_response auth id response raw w).server.flags.lowerup ≡ w.server.flags.lowerup)
        × ((check_response auth id response raw w).server.flags.started ≡ w.server.flags.started)
  unfolding check_response
  check_response_flags id response raw w = (refl, refl, refl)

  conclude-IsArmed :
      (name : List ℕ) (w : World C)
      → IsArmed w
      → w.server.flags.timeout_pending ≡ false
      → w.server.flags.lowerup ≡ true
      → w.server.flags.started ≡ true
      → IsArmed (conclude auth name w)
  unfolding conclude
  conclude-IsArmed name w h p up st = ground (
    arith,
    keeps.peer_fail w h,
    keeps.same_server w.server.digest.code name w,
    keeps.same_timers w.server.digest.code name w,
  )

  pub handle_response-IsArmed :
      (id : ℕ) (body : List ℕ) (w : World C) → IsArmed w → IsArmed (handle_response auth id body w)
  unfolding handle_response answer_response send_status check_session
  handle_response-IsArmed id [] w h = h
  handle_response-IsArmed id (_ ∷ []) w h = h
  handle_response-IsArmed id (n ∷ b ∷ rest) w h =
      let response = take n (b ∷ rest) in
      let raw = drop n (b ∷ rest) in
      let w1 = check_response auth id response raw w in
      let name = peer_name auth raw in
      ground (
        arith,
        check_response-IsArmed id response raw w h,
        check_response_flags id response raw w,
        conclude-IsArmed name (check_session auth name (send_status auth id w1)),
      )

  start_server-IsArmed :
      (name : List ℕ) (w : World C) (dp : Option (Digest C))
      → IsArmed w
      → w.server.flags.started ≡ false
      → AllArmed (start_server auth name w dp)
  unfolding start_server
  start_server-IsArmed name w none h s = tt
  start_server-IsArmed name w (some dp) h s =
      let ss = w.server in
      let f = ss.flags in
      let (id, c) = auth.random_byte w.env in
      let w1 = record w {
        server = record ss {
          digest = dp;
          name = name;
          id = id;
          flags = record f { started = true };
        };
        env = c;
      } in
      ground (arith, server_timeout-IsArmed w1)

  pub auth_peer-IsArmed :
      (name : List ℕ) (code : ℕ) (w : World C) → IsArmed w → AllArmed (auth_peer auth name code w)
  unfolding auth_peer
  auth_peer-IsArmed name code w h =
      AllArmed-if w.server.flags.started _ _ (λ s. h)
        (λ s. start_server-IsArmed name w (find_digest code w.chap_digests) h s)
