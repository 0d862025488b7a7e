-- ===== src/Auth/Alternate.antt =====
-- pppd/auth.c: the scripts auth-up and auth-down run in turn.
use ppp.Prelude.{◌≡◌, ◌≢◌, not, List, [], ◌∷◌}
use ppp.Auth.Defs.{World, Env, ScriptState, s_down}
use ppp.Auth.Scripts.{is_up, auth_script_done, note_down, note_up}

-- The newest script, or that none has run.
abbrev pub newest : List ScriptState → ScriptState
newest [] = s_down
newest (s ∷ ss) = s

-- Each script is another one than the one before it, and the first is auth-up.
abbrev pub IsAlternating : List ScriptState → Type 0
IsAlternating [] = Unit
IsAlternating (s ∷ ss) = (is_up s ≡ not (is_up (newest ss))) × IsAlternating ss

module _ {C : Type 0} where
  -- The scripts alternate, the newest agrees with `auth_script_state`, and if none is running then
  -- it agrees with `auth_state`.
  pub record IsInTurn (w : World C) : Type 0 where
    pub alternating : IsAlternating w.scripts
    pub last : w.auth_script_state ≡ newest w.scripts
    pub settled : w.auth_script_pid ≡ 0 → w.auth_state ≡ w.auth_script_state

  pub record SameScripts (w v : World C) : Type 0 where
    pub auth_state : v.auth_state ≡ w.auth_state
    pub auth_script_state : v.auth_script_state ≡ w.auth_script_state
    pub auth_script_pid : v.auth_script_pid ≡ w.auth_script_pid
    pub scripts : v.scripts ≡ w.scripts

-- The link comes to the network phase or goes down, a script finishes, or something else changes.
module _ {C : Type 0} (env : Env C) where
  pub data ScriptStep (w : World C) : World C → Type 0 where
    up : ScriptStep w (note_up env w)
    down : ScriptStep w (note_down env w)
    finished : w.auth_script_pid ≢ 0 → ScriptStep w (auth_script_done env w)
    elsewhere : {v : World C} → SameScripts w v → ScriptStep w v

  pub data ScriptReach (w : World C) : World C → Type 0 where
    start : ScriptReach w w
    next : {v u : World C} → ScriptReach w v → ScriptStep v u → ScriptReach w u
