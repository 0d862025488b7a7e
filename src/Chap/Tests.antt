-- ===== src/Chap/Tests.antt =====
-- A toy digest on both ends of a link, and the theorems at these inputs.
use ppp.Prelude.{
  ℕ, pos, ◌+◌, ◌≡◌, refl, true, false, none, some, [], ◌∷◌, ◌++◌, length, take, drop, newest, ◌==◌,
  arith,
}
use ppp.Chap.Defs.{Digest, Flags, World, Auth, no_flags, success_code}
use ppp.Chap.Server.{server_timeout}
use ppp.Chap.Client.{input}
use ppp.Chap.Run.{peer, up, server_expire, receive, run}
use ppp.Chap.Timers.{AllArmed, KeepsArmed}
use ppp.Chap.Reachable.{run-IsArmed}
use ppp.Chap.Handshake.{handshake_accepts}

-- The challenge is 1 2 3; the response is the challenge and the secret.
abbrev toy : Digest ℕ
toy = record {
  code = 5;
  generate_challenge = λ c. (1 ∷ 2 ∷ 3 ∷ [], c);
  verify_response =
      λ c id name secret value response. (length response == length value + length secret, [], c);
  make_response = λ c id name value secret. (value ++ secret, c);
  check_success = none;
  handle_failure = none;
}

-- The state counts the reports; the secret of everyone is 7 8.
abbrev auth : Auth ℕ
auth = record {
  max_transmits = pos 10;
  rechallenge_time = 60;
  explicit_remote = false;
  remote_name = [];
  strip_domain = true;
  session_mgmt = false;
  verifier = none;
  random_byte = λ c. (41, c);
  clean = λ name. name;
  get_secret = λ c client server am_server. some (7 ∷ 8 ∷ []);
  auth_number = λ c. true;
  session_check = λ c name. true;
  withpeer_fail = λ w. record w { env = w.env + 1 };
  withpeer_success = λ code w. record w { env = w.env + 1 };
  peer_fail = λ w. record w { env = w.env + 1 };
  peer_success = λ code name w. record w { env = w.env + 1 };
}

-- The failure of a peer takes the link down.
abbrev strict : Auth ℕ
strict =
    let a = auth in
    record a {
      peer_fail = λ w. let ss = w.server in record w { server = record ss { flags = no_flags } };
    }

auth-KeepsArmed : KeepsArmed auth
auth-KeepsArmed = record {
  withpeer_fail = λ w h. ground arith;
  withpeer_success = λ code w h. ground arith;
  peer_fail = λ w h. ground arith;
  same_server = λ code name w. refl;
  same_timers = λ code name w. refl;
}

abbrev up_flags : Flags
up_flags = let f = no_flags in record f { lowerup = true; started = true }

abbrev idle : World ℕ
idle = record {
  client = record { flags = no_flags; name = []; digest = toy };
  server = record {
    flags = no_flags;
    id = 0;
    name = [];
    digest = toy;
    challenge_xmits = 0;
    challenge = [];
    message = [];
  };
  chap_digests = toy ∷ [];
  client_timers = 0;
  server_timers = 0;
  sent = [];
  env = 0;
}

abbrev both : Flags → Flags → ℕ → ℕ → World ℕ
both f g n m =
    let w = idle in
    let cs = w.client in
    let ss = w.server in
    record w {
      client = record cs { flags = f; name = 98 ∷ [] };
      server = record ss { flags = g; id = 41; name = 115 ∷ [] };
      client_timers = n;
      server_timers = m;
    }

-- A challenge with the id 41 is out for the first time.
abbrev asked : World ℕ
asked =
    let w =
      both no_flags
        (let f = up_flags in record f { timeout_pending = true; challenge_valid = true }) 0 1 in
    let ss = w.server in
    record w {
      server = record ss {
        challenge_xmits = 8;
        challenge = 0xff ∷ 0x03 ∷ 0xc2 ∷ 0x23 ∷ 1 ∷ 41 ∷ 0 ∷ 9 ∷ 3 ∷ 1 ∷ 2 ∷ 3 ∷ 115 ∷ [];
      };
    }

abbrev ready : World ℕ
ready = both no_flags up_flags 0 0

abbrev waiting : World ℕ
waiting = both (let f = up_flags in record f { timeout_pending = true }) no_flags 1 0

run-IsArmed_example : AllArmed (
    run auth (up ∷ peer (115 ∷ []) 5 ∷ server_expire ∷ receive (2 ∷ 42 ∷ 0 ∷ 5 ∷ 0 ∷ []) ∷ []) idle)
run-IsArmed_example =
    run-IsArmed auth auth-KeepsArmed
      (up ∷ peer (115 ∷ []) 5 ∷ server_expire ∷ receive (2 ∷ 42 ∷ 0 ∷ 5 ∷ 0 ∷ []) ∷ []) idle refl
      refl

handshake_accepts_example :
    let v1 = server_timeout auth ready in
    let w1 = input auth (drop 4 (newest v1.sent)) waiting in
    let v2 = input auth (drop 4 (newest w1.sent)) v1 in
    (drop 4 (take 5 (newest v2.sent)) ≡ success_code ∷ [])
    × (v2.server.flags.done ≡ true)
    × (v2.server.flags.failed ≡ false)
handshake_accepts_example =
    handshake_accepts auth auth ready waiting (7 ∷ 8 ∷ [])
      (record { lowerup = refl; no_challenge = refl; not_failed = refl; not_done = refl }) refl refl
      (omega arith) (omega arith) (omega arith) (omega arith) (omega arith) (omega arith) refl
      (λ c. refl) (λ c. refl) refl (λ c. refl) refl (λ code name u. (refl, refl))
