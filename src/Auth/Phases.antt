-- ===== src/Auth/Phases.antt =====
-- pppd/auth.c: when the network phase begins.
use ppp.Prelude.{
  if-both, ℕ, ◌+◌, ◌≡◌, not, ◌&&◌, Option, none, some, List, [], ◌∷◌, if◌then◌else◌, arith,
}
use ppp.Auth.Defs.{World, Env, Protent, Reason, network, callback, new_phase, call}
use ppp.Auth.Scripts.{note_up, auth_script}
use ppp.Auth.Established.{
  open_np, open_networks, continue_networks, open_cps, start_own_networks, start_networks,
  network_phase, is_np, is_cp,
}

module _ {C : Type 0} where
  -- `v` has as much pending as `w`, and `n` more network phases have begun.
  pub record After (n : ℕ) (w v : World C) : Type 0 where
    pub pending : v.auth_pending ≡ w.auth_pending
    pub ups : v.auth_ups ≡ w.auth_ups + n

  -- What is called does not report an authentication before it returns.
  abbrev pub Quiet : (World C → World C) → Type 0
  Quiet f = (w : World C) → After 0 w (f w)

  abbrev pub QuietIf : Option (World C → World C) → Type 0
  QuietIf none = Unit
  QuietIf (some f) = Quiet f

  abbrev pub AllQuiet : List (Protent C) → Type 0
  AllQuiet [] = Unit
  AllQuiet (p ∷ ps) = QuietIf p.lowerup × QuietIf p.open_proto × AllQuiet ps

  open_np-Quiet : (f : Option (World C → World C)) → QuietIf f → Quiet (open_np f)
  open_np-Quiet none q w = ground arith
  open_np-Quiet (some f) q w = ground (arith, q w)

  pub call-Quiet : (f : Option (World C → World C)) → QuietIf f → Quiet (call f)
  call-Quiet none q w = ground arith
  call-Quiet (some f) q w = q w

  pub then_After : {n m : ℕ} {w v u : World C} → After n w v → After m v u → After (n + m) w u
  then_After a b = ground arith

-- The rest of pppd, as auth.c relies on it: a protocol that is opened, brought up or told to
-- authenticate reports nothing before it returns.
pub record Reserved {C : Type 0} (env : Env C) : Type 0 where
  pub protocols : AllQuiet env.protocols
  pub lcp_close : (r : Reason) → Quiet (env.lcp_close r)
  pub eap_authpeer : (n : List ℕ) → Quiet (env.eap_authpeer n)
  pub chap_auth_peer : (n : List ℕ) (d : ℕ) → Quiet (env.chap_auth_peer n d)
  pub upap_authpeer : Quiet env.upap_authpeer
  pub eap_authwithpeer : (n : List ℕ) → Quiet (env.eap_authwithpeer n)
  pub chap_auth_with_peer : (n : List ℕ) (d : ℕ) → Quiet (env.chap_auth_with_peer n d)
  pub upap_authwithpeer : (n p : List ℕ) → Quiet (env.upap_authwithpeer n p)
  pub cbcp_open : Quiet env.cbcp_open

module _ {C : Type 0} (env : Env C) (h : Reserved env) where
  open_networks-Quiet : (ps : List (Protent C)) → AllQuiet ps → Quiet (open_networks env ps)
  unfolding open_networks
  open_networks-Quiet [] q w = ground arith
  open_networks-Quiet (p ∷ ps) q w =
      let v = if is_np p.protocol && p.enabled_flag then open_np p.open_proto w else w in
      then_After (if-both (After 0 w) _ _ w (open_np-Quiet p.open_proto (q.1) w) (ground arith))
        (open_networks-Quiet ps (q.2) v)

  open_cps-Quiet : (ps : List (Protent C)) → AllQuiet ps → Quiet (open_cps env ps)
  unfolding open_cps
  open_cps-Quiet [] q w = ground arith
  open_cps-Quiet (p ∷ ps) q w =
      let v = if is_cp p.protocol && p.enabled_flag then call p.open_proto w else w in
      then_After (if-both (After 0 w) _ _ w (call-Quiet p.open_proto (q.1) w) (ground arith))
        (open_cps-Quiet ps (q.2) v)

  continue_networks-Quiet : Quiet (continue_networks env)
  unfolding continue_networks
  continue_networks-Quiet w =
      let v = open_networks env env.protocols w in
      then_After (open_networks-Quiet env.protocols h.protocols w)
        (if-both (After 0 v) _ _ v (h.lcp_close _ v) (ground arith))

  start_own_networks-Quiet : Quiet (start_own_networks env)
  unfolding start_own_networks
  start_own_networks-Quiet w =
      let f = if env.set.demand then w else record w { client = env.set_filters w.client } in
      let v = open_cps env env.protocols f in
      let e : After 0 w f = ground arith in
      then_After (then_After e (open_cps-Quiet env.protocols h.protocols f))
        (if-both (After 0 v) _ _ v (continue_networks-Quiet v) (ground arith))

  start_networks-Quiet : Quiet (start_networks env)
  unfolding start_networks new_phase
  start_networks-Quiet w =
      let v = new_phase env network w in
      let joined = env.mp_join_bundle v.client in
      let e : After 0 w v = ground arith in
      let hooked = env.multilink_join_hook joined.1 in
      let alone : After 0 v (record v { client = joined.1 }) = ground arith in
      let own = then_After alone (start_own_networks-Quiet (record v { client = joined.1 })) in
      let bundle : After 0 v (record v {
        client = if env.set.updetach && not env.set.nodetach then env.detach hooked else hooked;
      }) =
        ground arith in
      then_After e (
        if-both (After 0 v) env.set.multilink _ _ (if-both (After 0 v) (joined.0) _ _ bundle own)
          (start_own_networks-Quiet v))

  note_up-After : (w : World C) → After 1 w (note_up env w)
  unfolding note_up auth_script
  note_up-After w = ground arith

  pub network_phase-After : (w : World C) → After 1 w (network_phase env w)
  unfolding network_phase new_phase
  network_phase-After w =
      let v = note_up env w in
      let e : After 0 v (new_phase env callback v) = ground arith in
      let k : After 0 v (record v { client = env.extra_options v.client }) = ground arith in
      then_After (note_up-After w) (
        if-both (After 0 v) (env.gotoptions v.client).neg_cbcp _ _
          (then_After e (h.cbcp_open (new_phase env callback v)))
          (then_After k (start_networks-Quiet (record v { client = env.extra_options v.client }))))
