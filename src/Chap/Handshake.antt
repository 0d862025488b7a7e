-- ===== src/Chap/Handshake.antt =====
-- A whole exchange of pppd/chap.c: Challenge, Response, and the verdict on it.
use ppp.Prelude.{
  ℕ, ◌+◌, ◌%◌, ◌≡◌, ◌<◌, true, false, none, some, List, [], ◌∷◌, ◌++◌, arith, length, take, drop,
  take-append, drop-append, newest,
}
use ppp.Chap.Defs.{World, Auth, challenge_code, response_code, success_code, packet}
use ppp.Chap.Server.{
  generate_challenge, server_timeout, send_challenge, check_response, send_status, check_session,
  conclude, check_with, verify_response, verify_with, peer_name, value_of,
}
use ppp.Chap.Client.{send_response, challenger, input}
use ppp.Chap.Messages.{prefixed, challenge-answered, response-checked}

module _ {C : Type 0} (auth : Auth C) where
  -- A server that has begun an authentication and is to send its first Challenge.
  pub record IsReady (v : World C) : Type 0 where
    pub lowerup : v.server.flags.lowerup ≡ true
    pub no_challenge : v.server.flags.challenge_valid ≡ false
    pub not_failed : v.server.flags.failed ≡ false
    pub not_done : v.server.flags.done ≡ false

  abbrev pub fresh_value : World C → List ℕ
  fresh_value v = (v.server.digest.generate_challenge v.env).0

  abbrev pub fresh_packet : World C → List ℕ
  fresh_packet v = packet challenge_code (v.server.id + 1) (prefixed (fresh_value v) v.server.name)

  record Challenged (v w : World C) : Type 0 where
    lowerup : w.server.flags.lowerup ≡ true
    challenge_valid : w.server.flags.challenge_valid ≡ true
    not_failed : w.server.flags.failed ≡ false
    not_done : w.server.flags.done ≡ false
    challenge : w.server.challenge ≡ fresh_packet v
    sent : newest w.sent ≡ fresh_packet v
    name : w.server.name ≡ v.server.name
    digest : w.server.digest ≡ v.server.digest

  server_timeout-Challenged : (v : World C) → IsReady v → Challenged v (server_timeout auth v)
  unfolding server_timeout send_challenge generate_challenge
  server_timeout-Challenged v r = ground arith

  value_of-fresh :
      (v w : World C)
      → Challenged v w
      → length (fresh_value v) < 256
      → value_of (drop 8 w.server.challenge) ≡ fresh_value v
  value_of-fresh v w ch small =
      let e : length (fresh_value v) % 256 ≡ length (fresh_value v) = omega arith in
      rw (ch.challenge, e) (take-append (fresh_value v) v.server.name)

  -- A good response leaves the server with no failure.
  check_response_good :
      (v w : World C) (id : ℕ) (response raw secret : List ℕ)
      → Challenged v w
      → length (fresh_value v) < 256
      → auth.verifier ≡ none
      → ((c : C) → auth.auth_number c ≡ true)
      → ((c : C) → auth.get_secret c (peer_name auth raw) v.server.name true ≡ some secret)
      → ((c : C)
          → (v.server.digest.verify_response c id
              (peer_name auth raw)
              secret
              (fresh_value v)
              response).0
            ≡ true)
      → (check_response auth id response raw w).server.flags.failed ≡ false
  unfolding check_response verify_response verify_with
  check_response_good v w id response raw secret ch small plain numbered known good = ground (
    arith,
    ch,
    known w.env,
    value_of-fresh v w ch small,
    good w.env,
    numbered (check_with auth auth.verifier w (peer_name auth raw) id response).2,
  )

  -- The last steps, after a good response.
  verdict_good :
      (id : ℕ) (response raw : List ℕ) (w : World C)
      → (check_response auth id response raw w).server.flags.failed ≡ false
      → auth.session_mgmt ≡ false
      → ((code : ℕ) (name : List ℕ) (u : World C)
          → ((auth.peer_success code name u).server ≡ u.server)
            × ((auth.peer_success code name u).sent ≡ u.sent))
      → let name = peer_name auth raw in
        let v2 =
          conclude auth name (
            check_session auth name
              (send_status auth id (check_response auth id response raw w))) in
        (drop 4 (take 5 (newest v2.sent)) ≡ success_code ∷ [])
        × (v2.server.flags.done ≡ true)
        × (v2.server.flags.failed ≡ false)
  unfolding conclude check_session send_status
  verdict_good id response raw w fine nosession quiet =
      let u =
        check_session auth (peer_name auth raw)
          (send_status auth id (check_response auth id response raw w)) in
      ground (arith, quiet u.server.digest.code (peer_name auth raw) u)

  send_response_sent :
      (id : ℕ) (value name : List ℕ) (w : World C) (secret : List ℕ)
      → auth.get_secret w.env w.client.name (challenger auth name) false ≡ some secret
      → newest (send_response auth id (length value) (value ++ name) w).sent
        ≡ packet response_code id (
            prefixed
              (w.client.digest.make_response w.env id w.client.name value secret).0
              w.client.name)
  unfolding send_response
  send_response_sent id value name w secret know =
      rw (take-append value name, drop-append value name, know)

module _ {C D : Type 0} (server : Auth C) (client : Auth D) where
  -- The bytes that the client's digest answers the fresh challenge with.
  abbrev pub response_to : World C → World D → List ℕ → List ℕ
  response_to v w secret =
      (w.client.digest.make_response w.env ((v.server.id + 1) % 256) w.client.name
        (fresh_value server v) secret).0

  -- The three messages of a handshake: the server's Challenge, delivered to the client, the
  -- client's Response to it, delivered to the server, and the server's verdict on that. The verdict
  -- is a Success, and the server is done and has not failed, if both ends know one secret under
  -- each other's names and the digest verifies what it makes from it; if both ends are ready, the
  -- values have 1 to 255 bytes and the packets fit a length field; and if no plugin, number or
  -- session restriction interferes and the report of success leaves the flags and the packets.
  pub handshake_accepts :
      (v : World C) (w : World D) (secret : List ℕ)
      → IsReady server v
      → w.client.flags.lowerup ≡ true
      → w.client.flags.started ≡ true
      → 0 < length (fresh_value server v)
      → length (fresh_value server v) < 256
      → length (fresh_value server v) + length v.server.name < 65000
      → 0 < length (response_to v w secret)
      → length (response_to v w secret) < 256
      → length (response_to v w secret) + length w.client.name < 65000
      → client.get_secret w.env w.client.name (challenger client v.server.name) false ≡ some secret
      → ((c : C)
          → server.get_secret c (peer_name server w.client.name) v.server.name true ≡ some secret)
      → ((c : C)
          → (v.server.digest.verify_response c
              ((v.server.id + 1) % 256 % 256)
              (peer_name server w.client.name)
              secret
              (fresh_value server v)
              (response_to v w secret)).0
            ≡ true)
      → server.verifier ≡ none
      → ((c : C) → server.auth_number c ≡ true)
      → server.session_mgmt ≡ false
      → ((code : ℕ) (name : List ℕ) (u : World C)
          → ((server.peer_success code name u).server ≡ u.server)
            × ((server.peer_success code name u).sent ≡ u.sent))
      → let v1 = server_timeout server v in
        let w1 = input client (drop 4 (newest v1.sent)) w in
        let v2 = input server (drop 4 (newest w1.sent)) v1 in
        (drop 4 (take 5 (newest v2.sent)) ≡ success_code ∷ [])
        × (v2.server.flags.done ≡ true)
        × (v2.server.flags.failed ≡ false)
  handshake_accepts v w secret r up st vp vs vf rp rs rf know known good plain numbered nosession
        quiet =
      let v1 = server_timeout server v in
      let ch = server_timeout-Challenged server v r in
      let value = fresh_value server v in
      let id : ℕ = (v.server.id + 1) % 256 in
      let response = response_to v w secret in
      let asked =
        challenge-answered client (v.server.id + 1) value v.server.name w vp vs vf up st in
      let made = send_response_sent client id value v.server.name w secret know in
      let checked =
        response-checked server id response w.client.name v1 rp rs rf ch.lowerup ch.challenge_valid
          (ground (arith, ch)) in
      let fine =
        check_response_good server v v1 (id % 256) response w.client.name secret ch vs plain
          numbered known good in
      rw (ch.sent, asked, made, checked)
        (verdict_good server (id % 256) response w.client.name v1 fine nosession quiet)
