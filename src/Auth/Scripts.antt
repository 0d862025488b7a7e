-- ===== src/Auth/Scripts.antt =====
-- pppd/auth.c: the scripts auth-up and auth-down.
use ppp.Prelude.{◌+◌, Bool, true, false, not, ◌&&◌, ◌||◌, ◌∷◌, ◌==◌, if◌then◌else◌}
use ppp.Auth.Defs.{World, Env, ScriptState, s_down, s_up}

abbrev pub is_up : ScriptState → Bool
is_up s_up = true
is_up s_down = false

module _ {C : Type 0} (env : Env C) where
  -- `auth_script`.
  unfoldable pub auth_script : ScriptState → World C → World C
  auth_script s w = record w {
    auth_script_pid = env.run_program s w.client;
    scripts = s ∷ w.scripts;
  }

  -- `auth_script_done`: the script has finished.
  unfoldable pub auth_script_done : World C → World C
  unfolding auth_script
  auth_script_done w =
      if is_up w.auth_script_state
      then if is_up w.auth_state
        then record w { auth_script_pid = 0 }
        else auth_script s_down (record w { auth_script_pid = 0; auth_script_state = s_down })
      else if is_up w.auth_state
      then auth_script s_up (record w { auth_script_pid = 0; auth_script_state = s_up })
      else record w { auth_script_pid = 0 }

  -- The script part of `link_down`.
  unfoldable pub note_down : World C → World C
  unfolding auth_script
  note_down w =
      let v = record w {
        link_downs = w.link_downs + 1;
        auth_state = s_down;
        client = env.link_down_notifier w.client;
      } in
      if is_up w.auth_state
      then if is_up w.auth_script_state && w.auth_script_pid == 0
        then auth_script s_down (record v { auth_script_state = s_down })
        else v
      else w

  -- The script part of `network_phase`.
  unfoldable pub note_up : World C → World C
  unfolding auth_script
  note_up w =
      let v = record w { auth_ups = w.auth_ups + 1; client = env.auth_up_notifier w.client } in
      let go = env.gotoptions v.client in
      if go.neg_chap || go.neg_upap || go.neg_eap
      then if not (is_up v.auth_script_state) && v.auth_script_pid == 0
        then auth_script s_up (record v { auth_state = s_up; auth_script_state = s_up })
        else record v { auth_state = s_up }
      else v
