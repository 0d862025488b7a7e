-- ===== src/Upap/Tests.antt =====
-- A PAP unit with a table of one user, runs of it, and the theorems at these inputs.
use ppp.Prelude.{
  ◌<◌, ◌-◌, ℕ, newest, pos, ◌+◌, ◌≡◌, ◌⊎◌, refl, true, List, [], ◌∷◌, length, drop, ◌==◌,
  if◌then◌else◌, arith,
}
use ppp.Upap.Defs.{set_client, ClientState, ServerState, World, Auth, Upap}
use ppp.Upap.Ops.{
  is_authreq, dispatch, timeout, sauthreq, lowerup, lowerdown, authwithpeer, rauthack, input,
  answer_request,
}
use ppp.Upap.Run.{Event, with_peer, fire, up, expire, receive, start, step, run, expiries}
use ppp.Upap.Client.{IsTimed, KeepsTimed, run-IsTimed}
use ppp.Upap.Server.{input-sauthreq}
use ppp.Upap.Admission.{Shut, Enters, step-Shut}
use ppp.Upap.Retry.{with_requests, requests_give_up, stale_timer}

-- The state counts the reports. The user is "a" with the password "b".
abbrev auth : Auth ℕ
auth = record {
  check_passwd = λ c user passwd. (if length user + length passwd == 2 then 2 else 3, [], c);
  auth_number = λ c. true;
  withpeer_fail = λ w. record w { client = w.client + 1 };
  withpeer_success = λ w. record w { client = w.client + 1 };
  peer_fail = λ w. record w { client = w.client + 1 };
  peer_success = λ user w. record w { client = w.client + 1 };
}

auth-KeepsTimed : KeepsTimed auth
auth-KeepsTimed = record {
  withpeer_fail = λ w h. ground arith;
  withpeer_success = λ w h. ground arith;
  peer_fail = λ w h. ground arith;
  peer_success = λ user w h. ground arith;
}

abbrev raw : Upap
raw = record {
  user = 97 ∷ [];
  passwd = 98 ∷ [];
  clientstate = ClientState.auth_req;
  serverstate = ServerState.listen;
  id = 4;
  timeouttime = 3;
  transmits = 1;
  maxtransmits = pos 3;
  reqtimeout = pos 30;
}

abbrev asking : World ℕ
asking = record { upap = raw; timers = 1; req_timers = 1; sent = []; client = 0 }

abbrev story : List (Event ℕ)
story = up ∷ with_peer (97 ∷ []) (98 ∷ []) ∷ expire ∷ expire ∷ receive (2 ∷ 3 ∷ 0 ∷ 5 ∷ 0 ∷ []) ∷ []

story_opens : (run auth story (start raw 0)).upap.clientstate ≡ ClientState.open'
unfolding run step fire input dispatch rauthack authwithpeer lowerup timeout start
story_opens = refl

run-IsTimed_example : IsTimed (run auth story (start raw 0))
run-IsTimed_example = run-IsTimed auth auth-KeepsTimed raw 0 story

input-sauthreq_example :
    input auth (drop 4 (newest (sauthreq asking).sent)) asking
    ≡ answer_request auth 5 (97 ∷ []) (98 ∷ []) asking
input-sauthreq_example = input-sauthreq auth asking asking (omega arith) (omega arith) refl

abbrev request : List ℕ
request = 1 ∷ 5 ∷ 0 ∷ 8 ∷ 1 ∷ 97 ∷ 1 ∷ 98 ∷ []

step-Shut_example : Shut (step auth (receive request) asking) ⊎ Enters auth asking (receive request)
step-Shut_example =
    step-Shut auth
      (record { withpeer_fail = λ w h. h; withpeer_success = λ w h. h; peer_fail = λ w h. h })
      (receive request) asking refl

requests_give_up_example :
    let v = expiries auth 2 asking in
    (is_authreq v.upap.clientstate ≡ true)
    × (0 < v.timers)
    × (v.sent ≡ with_requests 2 asking.upap.id asking.upap.user asking.upap.passwd [])
    × (expiries auth 3 asking
        ≡ auth.withpeer_fail (set_client ClientState.bad_auth (record v { timers = v.timers - 1 })))
requests_give_up_example = requests_give_up auth 2 3 asking refl (omega arith) refl refl

stale_timer_example :
    let again = lowerup (authwithpeer (97 ∷ []) (98 ∷ []) (lowerdown (rauthack auth [] asking))) in
    (is_authreq again.upap.clientstate ≡ true) × (again.timers ≡ 2) × (again.upap.transmits ≡ 1)
stale_timer_example = stale_timer auth (97 ∷ []) (98 ∷ []) asking (λ w. (refl, refl)) refl refl
