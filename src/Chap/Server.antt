-- ===== src/Chap/Server.antt =====
-- pppd/chap.c: the end that authenticates its peer.
use ppp.Prelude.{
  ℕ, zero, suc, ◌+◌, ◌-◌, ◌%◌, Bool, true, false, not, ◌&&◌, ◌||◌, Option, none, some, List, [],
  ◌∷◌, ◌++◌, length, take, drop, ltb, ◌==◌, if◌then◌else◌, reaches,
}
use ppp.Chap.Defs.{
  Digest, World, Auth, challenge_code, success_code, failure_code, packet, find_digest, set_server,
}

-- The byte at an offset of the buffer, which starts as zeros.
abbrev pub byte_at : List ℕ → ℕ → ℕ
byte_at [] i = 0
byte_at (b ∷ bs) zero = b
byte_at (b ∷ bs) (suc i) = byte_at bs i

-- The text behind the last backslash, or all of it.
unfoldable pub strip : List ℕ → List ℕ → List ℕ
strip all [] = all
strip all (c ∷ cs) = strip (if c == 92 then cs else all) cs

-- A value that stands behind its length byte.
abbrev pub value_of : List ℕ → List ℕ
value_of [] = []
value_of (n ∷ rest) = take n rest

module _ {C : Type 0} (auth : Auth C) where
  -- `chap_generate_challenge`.
  unfoldable pub generate_challenge : World C → World C
  generate_challenge w =
      let ss = w.server in
      let (value, c) = ss.digest.generate_challenge w.env in
      let id = ss.id + 1 in
      record w {
        server = record ss {
          id = id;
          challenge = packet challenge_code id ((length value % 256) ∷ (value ++ ss.name));
        };
        env = c;
      }

  -- The Challenge goes out, and its repetition is scheduled.
  unfoldable pub send_challenge : World C → World C
  send_challenge w =
      let ss = w.server in
      let f = ss.flags in
      record w {
        server = record ss {
          challenge_xmits = ss.challenge_xmits + 1;
          flags = record f { timeout_pending = true };
        };
        server_timers = w.server_timers + 1;
        sent = ss.challenge ∷ w.sent;
      }

  abbrev pub fresh_challenge : World C → World C
  fresh_challenge w =
      let ss = w.server in
      let w1 = generate_challenge (record w { server = record ss { challenge_xmits = 0 } }) in
      let f = w1.server.flags in set_server (record f { challenge_valid = true }) w1

  -- `chap_server_timeout`, called with its callout off the list, or to begin.
  unfoldable pub server_timeout : World C → World C
  server_timeout w =
      let f = w.server.flags in
      let w1 = set_server (record f { timeout_pending = false }) w in
      let given_up = record f {
        timeout_pending = false;
        challenge_valid = false;
        done = true;
        failed = true;
      } in
      if not f.challenge_valid
      then send_challenge (fresh_challenge w1)
      else if reaches w.server.challenge_xmits auth.max_transmits
      then auth.peer_fail (set_server given_up w)
      else send_challenge w1

  unfoldable pub start_server : List ℕ → World C → Option (Digest C) → Option (World C)
  start_server our_name w none = none
  start_server our_name w (some dp) =
      let ss = w.server in
      let f = ss.flags in
      let (id, c) = auth.random_byte w.env in
      let w1 = record w {
        server = record ss {
          digest = dp;
          name = our_name;
          id = id;
          flags = record f { started = true };
        };
        env = c;
      } in
      some (if f.lowerup then server_timeout w1 else w1)

  -- `chap_auth_peer`; `none` is the call of `fatal`.
  unfoldable pub auth_peer : List ℕ → ℕ → World C → Option (World C)
  unfolding start_server
  auth_peer our_name code w =
      if w.server.flags.started
      then some w
      else start_server our_name w (find_digest code w.chap_digests)

  -- The peer's name, as it is checked and reported.
  unfoldable pub peer_name : List ℕ → List ℕ
  peer_name raw =
      let cleaned = auth.clean raw in
      if auth.explicit_remote
      then auth.remote_name
      else if auth.strip_domain
      then strip cleaned cleaned
      else cleaned

  -- `chap_verify_response`.
  unfoldable pub verify_with : Option (List ℕ) → List ℕ → World C → ℕ → List ℕ → Bool × List ℕ × C
  verify_with none name w id response = (false, w.server.message, w.env)
  verify_with (some secret) name w id response =
      w.server.digest.verify_response w.env id name secret (value_of (drop 8 w.server.challenge))
        response

  unfoldable pub verify_response : World C → List ℕ → ℕ → List ℕ → Bool × List ℕ × C
  unfolding verify_with
  verify_response w name id response =
      verify_with (auth.get_secret w.env name w.server.name true) name w id response

  -- The hook of a plugin comes first.
  abbrev pub check_with :
      Option (C → List ℕ → List ℕ → ℕ → Digest C → List ℕ → List ℕ → Bool × List ℕ × C)
      → World C
      → List ℕ
      → ℕ
      → List ℕ
      → Bool × List ℕ × C
  check_with none w name id response = verify_response w name id response
  check_with (some hook) w name id response =
      hook w.env name w.server.name id w.server.digest (value_of (drop 8 w.server.challenge))
        response

  -- The repetition is cancelled, and the response is checked.
  unfoldable pub check_response : ℕ → List ℕ → List ℕ → World C → World C
  check_response id response raw_name w =
      let ss = w.server in
      let f = ss.flags in
      let (good, message, c) = check_with auth.verifier w (peer_name raw_name) id response in
      record w {
        server = record ss {
          flags = record f {
            timeout_pending = false;
            failed = f.failed || not (good && auth.auth_number c);
          };
          message = message;
        };
        server_timers = if f.timeout_pending then w.server_timers - 1 else w.server_timers;
        env = c;
      }

  -- A Success or a Failure, with the message.
  unfoldable pub send_status : ℕ → World C → World C
  send_status id w =
      let code = if w.server.flags.failed then failure_code else success_code in
      record w { sent = packet code id w.server.message ∷ w.sent }

  -- The plugin's restrictions on the session, if it is a first success.
  unfoldable pub check_session : List ℕ → World C → World C
  check_session name w =
      let f = w.server.flags in
      let refused =
        not f.done && not f.failed && auth.session_mgmt && not (auth.session_check w.env name) in
      set_server (record f { challenge_valid = false; failed = f.failed || refused }) w

  abbrev pub schedule_rechallenge : World C → World C
  schedule_rechallenge w =
      let f = w.server.flags in
      let w' = set_server (record f { timeout_pending = true }) w in
      if auth.rechallenge_time == 0 then w else record w' { server_timers = w.server_timers + 1 }

  -- The report; the flag is set when it returns.
  unfoldable pub conclude : List ℕ → World C → World C
  conclude name w =
      let reported =
        if w.server.flags.done then w else auth.peer_success w.server.digest.code name w in
      let w1 = if w.server.flags.failed then auth.peer_fail w else schedule_rechallenge reported in
      let f = w1.server.flags in set_server (record f { done = true }) w1

  -- `chap_handle_response`; a body is the response's length, the response and the name.
  unfoldable pub answer_response : ℕ → ℕ → List ℕ → World C → World C
  answer_response id response_len rest w =
      let response = take response_len rest in
      let raw_name = drop response_len rest in
      let w1 = send_status id (check_response id response raw_name w) in
      let name = peer_name raw_name in
      if w.server.flags.challenge_valid
      then if ltb (length rest) response_len then w else conclude name (check_session name w1)
      else if w.server.flags.done
      then send_status id w
      else w

  unfoldable pub handle_response : ℕ → List ℕ → World C → World C
  unfolding answer_response
  handle_response id (response_len ∷ b ∷ rest) w =
      if not w.server.flags.lowerup
      then w
      else if not (id == byte_at w.server.challenge 5)
      then w
      else answer_response id response_len (b ∷ rest) w
  handle_response id _ w = w
