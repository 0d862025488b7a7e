-- ===== src/Chap/Client.antt =====
-- pppd/chap.c: the end that is authenticated, the events of the lower layer, and `chap_input`.
use ppp.Prelude.{
  ℕ, ◌+◌, ◌-◌, ◌*◌, ◌%◌, Bool, true, false, not, ◌&&◌, ◌||◌, Option, none, some, List, [], ◌∷◌,
  ◌++◌, length, take, drop, ltb, ◌==◌, if◌then◌else◌,
}
use ppp.Chap.Defs.{
  Digest, World, Auth, challenge_code, response_code, success_code, failure_code, headerlen, packet,
  no_flags, find_digest, set_client, set_server,
}
use ppp.Chap.Server.{server_timeout, handle_response}

abbrev pub secret_or_empty : Option (List ℕ) → List ℕ
secret_or_empty none = []
secret_or_empty (some s) = s

abbrev pub is_empty : List ℕ → Bool
is_empty [] = true
is_empty (x ∷ xs) = false

module _ {C : Type 0} where
  unfoldable pub start_client : List ℕ → World C → Option (Digest C) → Option (World C)
  start_client our_name w none = none
  start_client our_name w (some dp) =
      let cs = w.client in
      let f = cs.flags in
      some (record w {
        client = record {
          digest = dp;
          name = our_name;
          flags = record f { started = true; timeout_pending = true };
        };
        client_timers = w.client_timers + 1;
      })

  -- `chap_auth_with_peer`; `none` is the call of `fatal`.
  unfoldable pub auth_with_peer : List ℕ → ℕ → World C → Option (World C)
  unfolding start_client
  auth_with_peer our_name code w =
      if w.client.flags.started
      then some w
      else start_client our_name w (find_digest code w.chap_digests)

  unfoldable pub lowerdown : World C → World C
  lowerdown w =
      let w1 = set_server no_flags (set_client no_flags w) in
      record w1 {
        client_timers =
            if w.client.flags.timeout_pending then w.client_timers - 1 else w.client_timers;
        server_timers =
            if w.server.flags.timeout_pending then w.server_timers - 1 else w.server_timers;
      }

  abbrev pub settle_success : Option (C → ℕ → List ℕ → Bool × C) → ℕ → List ℕ → C → Bool × C
  settle_success none id body c = (true, c)
  settle_success (some check) id body c = check c id body

  abbrev pub settle_failure : Option (C → List ℕ → C) → List ℕ → C → C
  settle_failure none body c = c
  settle_failure (some handle) body c = handle c body

  -- Whether a status is a success, which the digest may check; and the state that the check, or the
  -- handling of a failure, leaves.
  unfoldable pub settle : ℕ → ℕ → List ℕ → Digest C → C → Bool × C
  settle code id body digest c =
      if code == success_code
      then settle_success digest.check_success id body c
      else (false, settle_failure digest.handle_failure body c)

module _ {C : Type 0} (auth : Auth C) where
  -- `chap_client_timeout`, called with its callout off the list.
  unfoldable pub client_timeout : World C → World C
  client_timeout w =
      let f = w.client.flags in
      auth.withpeer_fail
        (set_client (record f { timeout_pending = false; done = true; failed = true }) w)

  unfoldable pub lowerup : World C → World C
  lowerup w =
      let f = w.client.flags in
      let g = w.server.flags in
      let w1 =
        set_server (record g { lowerup = true }) (set_client (record f { lowerup = true }) w) in
      if g.started then server_timeout auth w1 else w1

  -- The name of the challenger: the configured one, if it gives none.
  unfoldable pub challenger : List ℕ → List ℕ
  challenger raw =
      let rname = auth.clean raw in
      if auth.explicit_remote || (not (is_empty auth.remote_name) && is_empty rname)
      then auth.remote_name
      else rname

  -- `chap_respond`, once the end is ready and the challenge is whole.
  unfoldable pub send_response : ℕ → ℕ → List ℕ → World C → World C
  send_response id clen rest w =
      let cs = w.client in
      let rname = challenger (drop clen rest) in
      let secret = secret_or_empty (auth.get_secret w.env cs.name rname false) in
      let (value, c) = cs.digest.make_response w.env id cs.name (take clen rest) secret in
      record w {
        env = c;
        sent = packet response_code id ((length value % 256) ∷ (value ++ cs.name)) ∷ w.sent;
      }

  -- `chap_respond`; a body is the challenge's length, the challenge and the name.
  unfoldable pub respond : ℕ → List ℕ → World C → World C
  respond id (clen ∷ b ∷ rest) w =
      let f = w.client.flags in
      if not (f.lowerup && f.started)
      then w
      else if ltb (length (b ∷ rest)) clen
      then w
      else send_response id clen (b ∷ rest) w
  respond id _ w = w

  -- `chap_handle_status`.
  unfoldable pub handle_status : ℕ → ℕ → List ℕ → World C → World C
  handle_status code id body w =
      let f = w.client.flags in
      let (good, c) = settle code id body w.client.digest w.env in
      let w1 = record w { client_timers = w.client_timers - 1; env = c } in
      let finished = record f { done = true; timeout_pending = false } in
      let failed = record finished { failed = true } in
      if f.done || not f.started || not f.lowerup
      then w
      else if good
      then auth.withpeer_success w.client.digest.code (set_client finished w1)
      else auth.withpeer_fail (set_client failed w1)

  unfoldable pub dispatch : ℕ → ℕ → List ℕ → World C → World C
  dispatch code id body w =
      if code == challenge_code
      then respond id body w
      else if code == response_code
      then handle_response auth id body w
      else if code == failure_code
      then handle_status code id body w
      else if code == success_code
      then handle_status code id body w
      else w

  -- `chap_input`: a packet is a list of bytes.
  unfoldable pub input : List ℕ → World C → World C
  input (code ∷ id ∷ hi ∷ lo ∷ rest) w =
      let len = hi * 256 + lo in
      if ltb len headerlen
      then w
      else if ltb (length rest + headerlen) len
      then w
      else dispatch code id (take (len - headerlen) rest) w
  input _ w = w

  -- `chap_protrej`.
  unfoldable pub protrej : World C → World C
  protrej w =
      let g = w.server.flags in
      let timers = if g.timeout_pending then w.server_timers - 1 else w.server_timers in
      let w1 =
        set_server (record g { timeout_pending = false }) (record w { server_timers = timers }) in
      let w2 = if g.started then auth.peer_fail (set_server no_flags w1) else w1 in
      let f = w2.client.flags in
      if f.started && not f.done
      then auth.withpeer_fail (set_client (record f { started = false }) w2)
      else w2
