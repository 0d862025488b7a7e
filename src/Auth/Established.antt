-- ===== src/Auth/Established.antt =====
-- pppd/auth.c: the phases from the established link to the network protocols, and back.
use ppp.Prelude.{
  ℕ, ◌+◌, ◌-◌, ℤ, pos, negsuc, Bool, true, false, not, ◌&&◌, ◌||◌, Option, none, some, List, [],
  ◌∷◌, ◌==◌, if◌then◌else◌, ltb, is_zero, bit_or,
}
use ppp.Lcp.Options.{LcpOptions}
use ppp.Lcp.Request.{chap_digest}
use ppp.Auth.Defs.{
  establish, authenticate, callback, network, refused_to_authenticate, no_eap, peer_no_eap,
  no_networks, World, Protent, Env, new_phase, is_dead, is_master, call,
}
use ppp.Auth.Scripts.{note_down, note_up}

abbrev pub pap_withpeer : ℕ
pap_withpeer = 0x1

abbrev pub pap_peer : ℕ
pap_peer = 0x2

abbrev pub chap_withpeer : ℕ
chap_withpeer = 0x4

abbrev pub chap_peer : ℕ
chap_peer = 0x8

abbrev pub eap_withpeer : ℕ
eap_withpeer = 0x10

abbrev pub eap_peer : ℕ
eap_peer = 0x20

abbrev pub ppp_lcp : ℕ
ppp_lcp = 0xc021

abbrev pub ppp_ccp : ℕ
ppp_ccp = 0x80fd

abbrev pub ppp_ecp : ℕ
ppp_ecp = 0x8053

-- `++x`.
abbrev pub suc_ℤ : ℤ → ℤ
suc_ℤ (pos n) = pos (n + 1)
suc_ℤ (negsuc n) = if n == 0 then pos 0 else negsuc (n - 1)

-- The kinds of protocol that the loops over `protocols` choose.
abbrev pub is_cp : ℕ → Bool
is_cp p = p == ppp_ecp || p == ppp_ccp

abbrev pub is_np : ℕ → Bool
is_np p = ltb p 0xC000 && not (is_cp p)

abbrev pub is_empty : List ℕ → Bool
is_empty [] = true
is_empty (b ∷ p) = false

module _ {C : Type 0} where
  -- `continue_networks`: the opening of one protocol.
  abbrev pub open_np : Option (World C → World C) → World C → World C
  open_np none w = w
  open_np (some f) w = let v = f w in record v { num_np_open = suc_ℤ v.num_np_open }

  -- `link_established`: the password for PAP that `get_pap_passwd` has found.
  abbrev pub read_passwd : Option (List ℕ) → World C → World C
  read_passwd none w = record w { passwd_from_file = true }
  read_passwd (some secret) w = record w { passwd_from_file = true; passwd = secret }

module _ {C : Type 0} (env : Env C) where
  -- `continue_networks`: the loop, which opens the network protocols.
  unfoldable pub open_networks : List (Protent C) → World C → World C
  open_networks [] w = w
  open_networks (p ∷ ps) w =
      open_networks ps (if is_np p.protocol && p.enabled_flag then open_np p.open_proto w else w)

  unfoldable pub continue_networks : World C → World C
  unfolding open_networks
  continue_networks w =
      let v = open_networks env.protocols w in
      if is_zero v.num_np_open then env.lcp_close no_networks v else v

  -- `start_networks`: the loop that opens CCP and ECP.
  unfoldable pub open_cps : List (Protent C) → World C → World C
  open_cps [] w = w
  open_cps (p ∷ ps) w =
      open_cps ps (if is_cp p.protocol && p.enabled_flag then call p.open_proto w else w)

  -- `start_networks`, for a link that is in no bundle.
  unfoldable pub start_own_networks : World C → World C
  unfolding open_cps continue_networks
  start_own_networks w =
      let filtered = if env.set.demand then w else record w { client = env.set_filters w.client } in
      let v = open_cps env.protocols filtered in
      if not (env.ecp_required v.client) && not (env.mppe_required v.client)
      then continue_networks v
      else v

  unfoldable pub start_networks : World C → World C
  unfolding new_phase start_own_networks
  start_networks w =
      let v = new_phase env network w in
      let joined = env.mp_join_bundle v.client in
      let hooked = env.multilink_join_hook joined.1 in
      if env.set.multilink
      then if joined.0
        then record v {
          client = if env.set.updetach && not env.set.nodetach then env.detach hooked else hooked;
        }
        else start_own_networks (record v { client = joined.1 })
      else start_own_networks v

  -- `network_phase`.
  unfoldable pub network_phase : World C → World C
  unfolding note_up new_phase start_networks
  network_phase w =
      let v = note_up env w in
      if (env.gotoptions v.client).neg_cbcp
      then env.cbcp_open (new_phase env callback v)
      else start_networks (record v { client = env.extra_options v.client })

  -- The loop of `link_established`.
  unfoldable pub lowerups : List (Protent C) → World C → World C
  lowerups [] w = w
  lowerups (p ∷ ps) w =
      lowerups ps (if not (p.protocol == ppp_lcp) && p.enabled_flag then call p.lowerup w else w)

  -- `link_established`: the peer, who has to authenticate himself, refuses to: whether he may go on.
  unfoldable pub refusal : World C → Bool × World C
  refusal w =
      let login = env.null_login w.client in
      if env.noauth_addrs w.client
      then (true, record w { client = env.set_allowed_addrs w.client })
      else if not (env.wantoptions w.client).neg_upap || env.set.uselogin
      then (false, w)
      else (login.0, record w { client = login.1 })

  -- `link_established`: the start of the peer's authentication, and its bit.
  unfoldable pub ask_peer : LcpOptions → World C → ℕ × World C
  unfolding chap_digest
  ask_peer go w =
      if go.neg_eap
      then (eap_peer, env.eap_authpeer env.set.our_name w)
      else if go.neg_chap
      then (chap_peer, env.chap_auth_peer env.set.our_name (chap_digest go.chap_mdtype) w)
      else if go.neg_upap
      then (pap_peer, env.upap_authpeer w)
      else (0, w)

  -- `link_established`: the password for PAP.
  unfoldable pub find_passwd : World C → World C
  find_passwd w =
      if is_empty w.passwd && not env.set.explicit_passwd
      then read_passwd (env.get_pap_passwd w.client) w
      else w

  -- `link_established`: the start of our own authentication, and its bit.
  unfoldable pub answer_peer : LcpOptions → World C → ℕ × World C
  unfolding chap_digest find_passwd
  answer_peer ho w =
      let v = find_passwd w in
      if ho.neg_eap
      then (eap_withpeer, env.eap_authwithpeer env.set.user w)
      else if ho.neg_chap
      then (chap_withpeer, env.chap_auth_with_peer env.set.user (chap_digest ho.chap_mdtype) w)
      else if ho.neg_upap
      then (pap_withpeer, env.upap_authwithpeer env.set.user v.passwd v)
      else (0, w)

  -- `link_established`: what is left to wait for.
  unfoldable pub await_auth : ℕ → World C → World C
  unfolding network_phase
  await_auth auth w =
      let u = record w { auth_pending = auth; auth_done = 0 } in
      if auth == 0 then network_phase u else u

  -- `link_established`, when nothing stands against it.
  unfoldable pub start_auth : World C → World C
  unfolding new_phase ask_peer answer_peer await_auth
  start_auth w =
      let v = new_phase env authenticate w in
      let peer = ask_peer (env.gotoptions v.client) v in
      let withpeer = answer_peer (env.hisoptions (peer.1).client) (peer.1) in
      await_auth (bit_or peer.0 withpeer.0) (withpeer.1)

  -- `link_established`: what needs EAP for us.
  unfoldable pub check_eap_need : World C → World C
  unfolding start_auth
  check_eap_need w =
      if env.set.need_peer_eap && not (env.allowoptions w.client).neg_eap
      then record (env.lcp_close no_eap w) { status = 19 }
      else if env.set.need_peer_eap && not (env.hisoptions w.client).neg_eap
      then record (env.lcp_close peer_no_eap w) { status = 11 }
      else start_auth w

  -- `link_established`, behind the loop and the addresses: the peer may have refused.
  unfoldable pub check_refusal : World C → World C
  unfolding refusal check_eap_need
  check_refusal w =
      let go = env.gotoptions w.client in
      let may = refusal w in
      if env.set.auth_required && not (go.neg_upap || go.neg_chap || go.neg_eap)
      then if may.0
        then check_eap_need (may.1)
        else env.lcp_close refused_to_authenticate (record (may.1) { status = 11 })
      else check_eap_need w

  -- `link_established`.
  unfoldable pub link_established : World C → World C
  unfolding lowerups check_refusal
  link_established w =
      let up = if env.mp_on w.client then w else lowerups env.protocols w in
      check_refusal (
        if not env.set.auth_required && env.noauth_addrs up.client
        then record up { client = env.set_allowed_addrs up.client }
        else up)

  -- `upper_layers_down`: the loop.
  unfoldable pub lower_all : List (Protent C) → World C → World C
  lower_all [] w = w
  lower_all (p ∷ ps) w =
      let lowered = if not (p.protocol == ppp_lcp) then call p.lowerdown w else w in
      let closed = if ltb p.protocol 0xC000 then call p.close_proto lowered else lowered in
      lower_all ps (if p.enabled_flag then closed else w)

  unfoldable pub upper_layers_down : World C → World C
  unfolding lower_all
  upper_layers_down w =
      let v = lower_all env.protocols w in record v { num_np_open = pos 0; num_np_up = pos 0 }

  -- `link_down`.
  unfoldable pub link_down : World C → World C
  unfolding note_down upper_layers_down new_phase
  link_down w =
      let v = note_down env w in
      let u = upper_layers_down v in
      if env.mp_on v.client
      then v
      else if is_dead u.phase || is_master u.phase
      then u
      else new_phase env establish u
