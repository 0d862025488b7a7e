-- ===== src/Auth/Tests.antt =====
-- A link with IPCP, whose peer has to use CHAP while we use PAP, and the theorems at it.
use ppp.Prelude.{◌⊎◌, ℕ, ◌≡◌, refl, pos, Bool, true, false, none, some, List, [], ◌∷◌, ltb, arith}
use ppp.Lcp.Options.{LcpOptions}
use ppp.Lcp.Nak.{zeroed, and_not}
use ppp.Auth.Defs.{World, Env, Protent, no_networks, establish, s_down, s_up}
use ppp.Auth.Scripts.{note_up, note_down, auth_script_done}
use ppp.Auth.Established.{start_auth, link_established, lowerups, continue_networks}
use ppp.Auth.Masks.{is_none, agreed}
use ppp.Auth.Phases.{Reserved, After}
use ppp.Auth.Owed.{
  Report, peer_success, withpeer_success, reports, peer_done, withpeer_done, peer_method,
  own_method,
}
use ppp.Auth.Opens.{start_auth_complete}
use ppp.Auth.Guard.{Lasting, link_established-required}
use ppp.Auth.Networks.{np_up, np_finished}
use ppp.Auth.Running.{IsWatched, Reach, start, next, up, here, Reach-IsWatched}
use ppp.Auth.Finished.{users, finishes, continue_networks-finishes}

abbrev both : LcpOptions
both = record zeroed { neg_chap = true; chap_mdtype = 4 }

abbrev own : LcpOptions
own = record zeroed { neg_upap = true }

abbrev proto : ℕ → Protent ℕ
proto number = record {
  protocol = number;
  enabled_flag = true;
  lowerup = some (λ w. w);
  lowerdown = some (λ w. w);
  open_proto = some (λ w. w);
  close_proto = none;
}

-- The rest of pppd, which counts nothing. `go` and `ho` are the options of LCP, and `login` is
-- whether `null_login` lets a peer in.
abbrev env_with : LcpOptions → LcpOptions → Bool → Env ℕ
env_with go ho login = record {
  set = record {
    auth_required = true;
    uselogin = false;
    explicit_passwd = false;
    need_peer_eap = false;
    multilink = false;
    demand = false;
    updetach = false;
    nodetach = false;
    user = 117 ∷ [];
    our_name = 109 ∷ [];
  };
  protocols = proto 0xc021 ∷ proto 0x8021 ∷ proto 0x8057 ∷ proto 0x80fd ∷ [];
  wantoptions = λ c. record zeroed { neg_upap = true };
  gotoptions = λ c. go;
  allowoptions = λ c. zeroed;
  hisoptions = λ c. ho;
  lcp_close = λ r w. w;
  eap_authpeer = λ n w. w;
  chap_auth_peer = λ n d w. w;
  upap_authpeer = λ w. w;
  eap_authwithpeer = λ n w. w;
  chap_auth_with_peer = λ n d w. w;
  upap_authwithpeer = λ n p w. w;
  cbcp_open = λ w. w;
  mp_on = λ c. false;
  mp_join_bundle = λ c. (false, c);
  multilink_join_hook = λ c. c;
  detach = λ c. c;
  set_filters = λ c. c;
  ecp_required = λ c. false;
  mppe_required = λ c. false;
  noauth_addrs = λ c. false;
  set_allowed_addrs = λ c. c;
  null_login = λ c. (login, c);
  get_pap_passwd = λ c. some (112 ∷ []);
  extra_options = λ c. c;
  new_phase_hook = λ p c. c;
  auth_up_notifier = λ c. c;
  link_down_notifier = λ c. c;
  run_program = λ s c. 100;
  idle_limit = λ c. pos 60;
  max_connect_time = λ c. pos 0;
  maxoctets = λ c. 0;
  get_idle_time = λ c. some (pos 30);
  octets_used = λ c. 0;
}

abbrev fresh : World ℕ
fresh = record {
  auth_pending = 0;
  auth_done = 0;
  num_np_open = pos 0;
  num_np_up = pos 0;
  auth_state = s_down;
  auth_script_state = s_down;
  auth_script_pid = 0;
  peer_authname = [];
  passwd = [];
  passwd_from_file = false;
  phase = establish;
  status = 0;
  unsuccess = 0;
  need_holdoff = false;
  idle_timers = 0;
  connect_timers = 0;
  octets_timers = 0;
  auth_ups = 0;
  link_downs = 0;
  scripts = [];
  client = 0;
}

unchanged : (w : World ℕ) → After 0 w w
unchanged w = ground arith

env_with-Reserved : (go ho : LcpOptions) (login : Bool) → Reserved (env_with go ho login)
env_with-Reserved go ho login = record {
  protocols = (
    unchanged,
    unchanged,
    (unchanged, unchanged, (unchanged, unchanged, (unchanged, unchanged, tt))),
  );
  lcp_close = λ r. unchanged;
  eap_authpeer = λ n. unchanged;
  chap_auth_peer = λ n d. unchanged;
  upap_authpeer = unchanged;
  eap_authwithpeer = λ n. unchanged;
  chap_auth_with_peer = λ n d. unchanged;
  upap_authwithpeer = λ n p. unchanged;
  cbcp_open = unchanged;
}

env_with-Lasting : (go ho : LcpOptions) (login : Bool) → Lasting (env_with go ho login)
env_with-Lasting go ho login = record { hook = λ p c. refl; hook_his = λ p c. refl }

-- Both ends report, the peer's name is cut to 255 characters, and IPCP and IPv6CP are open.
abbrev good_reports : List Report
good_reports = withpeer_success 0xc023 0 ∷ peer_success 0xc223 5 (112 ∷ []) ∷ []

one_is_not_enough :
    (reports
      (env_with both own false)
      (peer_success 0xc223 5 [] ∷ [])
      (start_auth (env_with both own false) fresh)).auth_ups
    ≡ 0
unfolding reports start_auth and_not
one_is_not_enough = refl

networks_open :
    (reports
      (env_with both own false)
      good_reports
      (start_auth (env_with both own false) fresh)).num_np_open
    ≡ pos 2
unfolding reports start_auth and_not
networks_open = refl

start_auth_complete_example :
    ltb 0
      (reports
        (env_with both own false)
        good_reports
        (start_auth (env_with both own false) fresh)).auth_ups
    ≡ true
unfolding peer_done withpeer_done peer_method own_method
start_auth_complete_example =
    start_auth_complete (env_with both own false) (env_with-Reserved both own false) good_reports
      fresh

-- A peer who refuses to authenticate, with and without a login for the empty name.
refused_stays_out : (link_established (env_with zeroed zeroed false) fresh).status ≡ 11
unfolding link_established
refused_stays_out = refl

link_established-required_example :
    (is_none (agreed zeroed) ≡ true)
    × (((env_with zeroed zeroed true).noauth_addrs 0 ≡ true)
        ⊎ (((((env_with zeroed zeroed true).wantoptions 0).neg_upap ≡ true) × (false ≡ false))
            × (((env_with zeroed zeroed true).null_login 0).0 ≡ true)))
    × (false ≡ false)
unfolding link_established lowerups start_auth and_not
link_established-required_example =
    link_established-required (env_with zeroed zeroed true) (env_with-Reserved zeroed zeroed true)
      (env_with-Lasting zeroed zeroed true) fresh refl refl

fresh-IsWatched : IsWatched fresh
fresh-IsWatched = ground arith

-- Two protocols come up, and one goes down.
abbrev env : Env ℕ
env = env_with both own false

two_up : Reach env fresh (np_up env (np_up env fresh))
two_up = next (next start up) up

timers_once : (np_up env (np_up env fresh)).idle_timers ≡ 1
unfolding np_up
timers_once = refl

Reach-IsWatched_example : IsWatched (np_up env (np_up env fresh))
Reach-IsWatched_example = Reach-IsWatched env (λ r w. here) two_up fresh-IsWatched

two_finish :
    ((finishes env 1 (continue_networks env fresh)).num_np_open ≡ pos 1)
    × (np_finished env (finishes env 1 (continue_networks env fresh))
        ≡ env.lcp_close no_networks
            (record (finishes env 1 (continue_networks env fresh)) { num_np_open = pos 0 }))
unfolding users
two_finish =
    continue_networks-finishes env 1 fresh
      ((λ w. refl), ((λ w. refl), ((λ w. refl), ((λ w. refl), tt)))) refl refl

-- Up, down while auth-up is still running, and then its end, which starts auth-down.
abbrev after_all : World ℕ
after_all = auth_script_done env (note_down env (note_up env fresh))

both_scripts : after_all.scripts ≡ s_down ∷ s_up ∷ []
unfolding auth_script_done note_down note_up
both_scripts = refl
