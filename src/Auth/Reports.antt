-- ===== src/Auth/Reports.antt =====
-- pppd/auth.c: what the authentication protocols report.
use ppp.Prelude.{ℕ, List, [], ◌==◌, if◌then◌else◌, bit_or, take}
use ppp.Lcp.Nak.{and_not}
use ppp.Lcp.Options.{ppp_chap}
use ppp.Lcp.Req.{ppp_pap, ppp_eap}
use ppp.Auth.Defs.{World, Env, authentication_failed, failed_to_authenticate}
use ppp.Auth.Established.{
  pap_withpeer, pap_peer, chap_withpeer, chap_peer, eap_withpeer, eap_peer, network_phase,
}

-- `auth_peer_success`: the bits for CHAP, by its flavour.
abbrev pub chap_peer_bits : ℕ → ℕ
chap_peer_bits flavor =
    if flavor == 5
    then bit_or chap_peer 0x80
    else if flavor == 0x80
    then bit_or chap_peer 0x200
    else if flavor == 0x81
    then bit_or chap_peer 0x800
    else chap_peer

-- `auth_withpeer_success`: the bits for CHAP, by its flavour.
abbrev pub chap_withpeer_bits : ℕ → ℕ
chap_withpeer_bits flavor =
    if flavor == 5
    then bit_or chap_withpeer 0x40
    else if flavor == 0x80
    then bit_or chap_withpeer 0x100
    else if flavor == 0x81
    then bit_or chap_withpeer 0x400
    else chap_withpeer

-- The `switch` of `auth_withpeer_success`.
abbrev pub withpeer_bits : ℕ → ℕ → ℕ
withpeer_bits protocol flavor =
    if protocol == ppp_chap
    then chap_withpeer_bits flavor
    else if protocol == ppp_pap
    then pap_withpeer
    else if protocol == ppp_eap
    then eap_withpeer
    else 0

module _ {C : Type 0} where
  -- `BZERO` of the password, if it is from the secrets file.
  abbrev pub forget_passwd : World C → World C
  forget_passwd w = if w.passwd_from_file then record w { passwd = [] } else w

module _ {C : Type 0} (env : Env C) where
  -- The end of both successes.
  unfoldable pub finish : ℕ → World C → World C
  unfolding and_not network_phase
  finish bit w =
      let v = record w {
        auth_done = bit_or w.auth_done bit;
        auth_pending = and_not w.auth_pending bit;
      } in
      if v.auth_pending == 0 then network_phase env v else v

  -- `auth_peer_success`, behind its `switch`.  `peer_authname` has room for 255
  -- characters and a NUL.
  unfoldable pub peer_authenticated : ℕ → List ℕ → World C → World C
  unfolding finish
  peer_authenticated bit name w = finish bit (record w { peer_authname = take 255 name })

  -- `auth_peer_success`.
  unfoldable pub auth_peer_success : ℕ → ℕ → List ℕ → World C → World C
  unfolding peer_authenticated
  auth_peer_success protocol flavor name w =
      if protocol == ppp_chap
      then peer_authenticated (chap_peer_bits flavor) name w
      else if protocol == ppp_pap
      then peer_authenticated pap_peer name w
      else if protocol == ppp_eap
      then peer_authenticated eap_peer name w
      else w

  -- `auth_withpeer_success`.
  unfoldable pub auth_withpeer_success : ℕ → ℕ → World C → World C
  unfolding finish
  auth_withpeer_success protocol flavor w =
      finish (withpeer_bits protocol flavor) (if protocol == ppp_pap then forget_passwd w else w)

  -- `auth_peer_fail`.
  unfoldable pub auth_peer_fail : World C → World C
  auth_peer_fail w = env.lcp_close authentication_failed (record w { status = 11 })

  -- `auth_withpeer_fail`.
  unfoldable pub auth_withpeer_fail : World C → World C
  auth_withpeer_fail w =
      env.lcp_close failed_to_authenticate (record (forget_passwd w) { status = 19 })
