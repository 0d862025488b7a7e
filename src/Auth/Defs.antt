-- ===== src/Auth/Defs.antt =====
-- pppd/auth.c: its variables, and what it calls.
use ppp.Prelude.{ℕ, ℤ, Bool, true, false, Option, none, some, List}
use ppp.Lcp.Options.{LcpOptions}

-- `ppp_phase_t`.
pub data Phase : Type 0 where
  dead initialize serialconn dormant establish authenticate callback network running terminate
        disconnect holdoff master :
      Phase

-- `enum script_state`; also the names of the two scripts, `auth-down` and `auth-up`.
pub data ScriptState : Type 0 where
  s_down s_up : ScriptState

-- The reasons for which the link is closed.
pub data Reason : Type 0 where
  refused_to_authenticate no_eap peer_no_eap no_networks authentication_failed
        failed_to_authenticate traffic_limit link_inactive connect_time_expired :
      Reason

-- The variables of auth.c, with the phase, the exit status and `unsuccess` of main.c. `idle_timers`,
-- `connect_timers` and `octets_timers` count the pending callouts of `check_idle`,
-- `connect_time_expired` and `check_maxoctets`; `auth_ups` and `link_downs` count the calls of the
-- two notifiers; `scripts` holds the scripts that were started, the newest first. `client` is the
-- state of the rest of pppd.
pub record World (C : Type 0) : Type 0 where
  pub auth_pending : ℕ
  pub auth_done : ℕ
  pub num_np_open : ℤ
  pub num_np_up : ℤ
  pub auth_state : ScriptState
  pub auth_script_state : ScriptState
  pub auth_script_pid : ℕ
  pub peer_authname : List ℕ
  pub passwd : List ℕ
  pub passwd_from_file : Bool
  pub phase : Phase
  pub status : ℕ
  pub unsuccess : ℕ
  pub need_holdoff : Bool
  pub idle_timers : ℕ
  pub connect_timers : ℕ
  pub octets_timers : ℕ
  pub auth_ups : ℕ
  pub link_downs : ℕ
  pub scripts : List ScriptState
  pub client : C

-- `struct protent`, the part that auth.c calls; `none` for a null pointer.
pub record Protent (C : Type 0) : Type 0 where
  pub protocol : ℕ
  pub enabled_flag : Bool
  pub lowerup : Option (World C → World C)
  pub lowerdown : Option (World C → World C)
  pub open_proto : Option (World C → World C)
  pub close_proto : Option (World C → World C)

-- The options of pppd that auth.c reads.
pub record Settings : Type 0 where
  pub auth_required : Bool
  pub uselogin : Bool
  pub explicit_passwd : Bool
  pub need_peer_eap : Bool
  pub multilink : Bool
  pub demand : Bool
  pub updetach : Bool
  pub nodetach : Bool
  pub user : List ℕ
  pub our_name : List ℕ

-- What auth.c calls in the rest of pppd, in the plugins and in the system. The operations on the
-- `World` may call back into auth.c; those on `C` alone cannot.
pub record Env (C : Type 0) : Type 0 where
  pub set : Settings
  pub protocols : List (Protent C)
  pub wantoptions : C → LcpOptions
  pub gotoptions : C → LcpOptions
  pub allowoptions : C → LcpOptions
  pub hisoptions : C → LcpOptions
  pub lcp_close : Reason → World C → World C
  pub eap_authpeer : List ℕ → World C → World C
  pub chap_auth_peer : List ℕ → ℕ → World C → World C
  pub upap_authpeer : World C → World C
  pub eap_authwithpeer : List ℕ → World C → World C
  pub chap_auth_with_peer : List ℕ → ℕ → World C → World C
  pub upap_authwithpeer : List ℕ → List ℕ → World C → World C
  pub cbcp_open : World C → World C
  pub mp_on : C → Bool
  pub mp_join_bundle : C → Bool × C
  pub multilink_join_hook : C → C
  pub detach : C → C
  pub set_filters : C → C
  pub ecp_required : C → Bool
  pub mppe_required : C → Bool
  pub noauth_addrs : C → Bool
  pub set_allowed_addrs : C → C
  pub null_login : C → Bool × C
  pub get_pap_passwd : C → Option (List ℕ)
  pub extra_options : C → C
  pub new_phase_hook : Phase → C → C
  pub auth_up_notifier : C → C
  pub link_down_notifier : C → C
  pub run_program : ScriptState → C → ℕ
  pub idle_limit : C → ℤ
  pub max_connect_time : C → ℤ
  pub maxoctets : C → ℕ
  pub get_idle_time : C → Option ℤ
  pub octets_used : C → ℕ

module _ {C : Type 0} (env : Env C) where
  -- `new_phase` of main.c.
  unfoldable pub new_phase : Phase → World C → World C
  new_phase p w = record w { phase = p; client = env.new_phase_hook p w.client }

abbrev pub is_dead : Phase → Bool
is_dead dead = true
is_dead _ = false

abbrev pub is_master : Phase → Bool
is_master master = true
is_master _ = false

module _ {C : Type 0} where
  -- A member of `struct protent`, unless it is a null pointer.
  abbrev pub call : Option (World C → World C) → World C → World C
  call none w = w
  call (some f) w = f w
