-- ===== src/Auth/Guard.antt =====
-- pppd/auth.c: who gets to the network phase without authentication.
use ppp.Prelude.{
  ◌≡◌, ◌≢◌, refl, sym, ap, ◌∙◌, true, false, not, ◌&&◌, ◌||◌, ◌⊎◌, List, [], ◌∷◌, ◌==◌, ltb,
  if◌then◌else◌, arith, if-both, Bool-cases, inl, inr,
}
use ppp.Lcp.Options.{LcpOptions}
use ppp.Auth.Defs.{
  World, Env, Protent, Phase, authenticate, new_phase, call, no_eap, peer_no_eap,
  refused_to_authenticate,
}
use ppp.Auth.Established.{
  lowerups, refusal, ask_peer, start_auth, check_eap_need, check_refusal, link_established, ppp_lcp,
}
use ppp.Auth.Masks.{is_none, agreed}
use ppp.Auth.Phases.{After, Reserved, AllQuiet, Quiet, call-Quiet, then_After}
use ppp.Auth.Owed.{peer_method, own_method, peer_done, withpeer_done, reports}
use ppp.Auth.Opens.{start_auth_complete}

-- What LCP has agreed on, LCP alone changes: a plugin that watches the phases does not.
pub record Lasting {C : Type 0} (env : Env C) : Type 0 where
  pub hook : (p : Phase) (c : C) → env.gotoptions (env.new_phase_hook p c) ≡ env.gotoptions c
  pub hook_his : (p : Phase) (c : C) → env.hisoptions (env.new_phase_hook p c) ≡ env.hisoptions c

module _ {C : Type 0} (env : Env C) (h : Reserved env) (l : Lasting env) where
  lowerups-Quiet : (ps : List (Protent C)) → AllQuiet ps → Quiet (lowerups env ps)
  unfolding lowerups
  lowerups-Quiet [] q w = ground arith
  lowerups-Quiet (p ∷ ps) q w =
      let v = if not (p.protocol == ppp_lcp) && p.enabled_flag then call p.lowerup w else w in
      then_After (if-both (After 0 w) _ _ w (call-Quiet p.lowerup (q.0) w) (ground arith))
        (lowerups-Quiet ps (q.2) v)

  start_auth-now :
      (w : World C)
      → ltb w.auth_ups (start_auth env w).auth_ups
        ≡ (is_none (peer_method env w) && is_none (own_method env w))
  unfolding reports peer_done withpeer_done
  start_auth-now w = start_auth_complete env h [] w

  peer_method_lem : (w : World C) → peer_method env w ≡ agreed (env.gotoptions w.client)
  unfolding peer_method new_phase
  peer_method_lem w = rw (l.hook authenticate w.client) refl

  ask_none :
      (go : LcpOptions) (w : World C) → is_none (agreed go) ≡ true → (ask_peer env go w).1 ≡ w
  unfolding ask_peer
  ask_none go w e =
      let eap : go.neg_eap ≡ false = ground arith in
      let chap : go.neg_chap ≡ false = ground arith in
      let upap : go.neg_upap ≡ false = ground arith in rw (eap, chap, upap) refl

  own_method_lem :
      (w : World C)
      → is_none (agreed (env.gotoptions w.client)) ≡ true
      → own_method env w ≡ agreed (env.hisoptions w.client)
  unfolding own_method new_phase
  own_method_lem w e =
      let v = new_phase env authenticate w in
      let same : is_none (agreed (env.gotoptions v.client)) ≡ true =
        rw (l.hook authenticate w.client) e in
      ap (λ u. agreed (env.hisoptions u.client)) (ask_none (env.gotoptions v.client) v same)
      ∙ ap agreed (l.hook_his authenticate w.client)

  -- No more network phases, then no network phase.
  not_more : (w v : World C) → After 0 w v → ltb w.auth_ups v.auth_ups ≢ true
  not_more w v k e = ground arith

  start_auth-none :
      (w : World C)
      → ltb w.auth_ups (start_auth env w).auth_ups ≡ true
      → (is_none (agreed (env.gotoptions w.client)) ≡ true)
        × (is_none (agreed (env.hisoptions w.client)) ≡ true)
  start_auth-none w e =
      let both : is_none (peer_method env w) && is_none (own_method env w) ≡ true =
        sym (start_auth-now w) ∙ e in
      let peer : is_none (peer_method env w) ≡ true = ground (arith, both) in
      let own : is_none (own_method env w) ≡ true = ground (arith, both) in
      let go : is_none (agreed (env.gotoptions w.client)) ≡ true =
        ap is_none (sym (peer_method_lem w)) ∙ peer in
      (go, ap is_none (sym (own_method_lem w go)) ∙ own)

  -- The network phase begins at once.
  check_eap_need-now :
      (w : World C)
      → ltb w.auth_ups (check_eap_need env w).auth_ups ≡ true
      → (is_none (agreed (env.gotoptions w.client)) ≡ true)
        × (is_none (agreed (env.hisoptions w.client)) ≡ true)
        × (env.set.need_peer_eap ≡ false)
  unfolding check_eap_need
  check_eap_need-now w e =
      let first = env.set.need_peer_eap && not (env.allowoptions w.client).neg_eap in
      let second = env.set.need_peer_eap && not (env.hisoptions w.client).neg_eap in
      elim (Bool-cases first) [
        | inl closed ↦
            absurd (not_more w (env.lcp_close no_eap w) (h.lcp_close no_eap w) (rw closed at e))
        | inr fine ↦ elim (Bool-cases second) [
          | inl closed ↦ absurd (
              not_more w (env.lcp_close peer_no_eap w) (h.lcp_close peer_no_eap w)
                (rw (fine, closed) at e))
          | inr same ↦
              let k = start_auth-none w (rw (fine, same) at e) in
              (k.0, k.1, ground (arith, same, k.1))
        ]
      ]

  none_agreed :
      (go : LcpOptions)
      → not (go.neg_upap || go.neg_chap || go.neg_eap) ≡ true
      → is_none (agreed go) ≡ true
  none_agreed go e = ground arith

  some_agreed :
      (go : LcpOptions)
      → not (go.neg_upap || go.neg_chap || go.neg_eap) ≡ false
      → is_none (agreed go) ≢ true
  some_agreed go e k = ground arith

  refusal-After : (w : World C) → After 0 w (refusal env w).1
  unfolding refusal
  refusal-After w = ground arith

  refusal_lem :
      (w : World C)
      → (refusal env w).0 ≡ true
      → (env.noauth_addrs w.client ≡ true)
        ⊎ ((((env.wantoptions w.client).neg_upap ≡ true) × (env.set.uselogin ≡ false))
            × ((env.null_login w.client).0 ≡ true))
  unfolding refusal
  refusal_lem w e = elim (Bool-cases (env.noauth_addrs w.client)) [
    | inl open' ↦ inl open'
    | inr shut ↦ inr ((ground arith, ground arith), ground arith)
  ]

  check_refusal-required :
      (w : World C)
      → env.set.auth_required ≡ true
      → ltb w.auth_ups (check_refusal env w).auth_ups ≡ true
      → (is_none (agreed (env.gotoptions w.client)) ≡ true)
        × ((env.noauth_addrs w.client ≡ true)
            ⊎ ((((env.wantoptions w.client).neg_upap ≡ true) × (env.set.uselogin ≡ false))
                × ((env.null_login w.client).0 ≡ true)))
        × (env.set.need_peer_eap ≡ false)
  unfolding check_refusal
  check_refusal-required w required e =
      let go = env.gotoptions w.client in
      let may = refusal env w in
      let k = refusal-After w in
      elim (Bool-cases (not (go.neg_upap || go.neg_chap || go.neg_eap))) [
        | inl refused ↦ elim (Bool-cases (may.0)) [
          | inl may_go ↦
              let more : ltb (may.1).auth_ups (check_eap_need env (may.1)).auth_ups ≡ true =
                ap (λ n. ltb n (check_eap_need env (may.1)).auth_ups) (omega (arith, k.ups))
                ∙ (rw (required, refused, may_go) at e) in
              (none_agreed go refused, refusal_lem w may_go, (check_eap_need-now (may.1) more).2)
          | inr closed ↦
              let v = record (may.1) { status = 11 } in
              let same : After 0 w v = ground (arith, k) in
              absurd (
                not_more w (env.lcp_close refused_to_authenticate v)
                  (then_After same (h.lcp_close refused_to_authenticate v))
                  (rw (required, refused, closed) at e))
        ]
        | inr agrees ↦
            let now = check_eap_need-now w (rw (required, agrees) at e) in
            absurd (some_agreed go agrees (now.0))
      ]

  behind_loop :
      (w up : World C)
      → After 0 w up
      → env.set.auth_required ≡ true
      → ltb w.auth_ups
          (check_refusal env (
            if not env.set.auth_required && env.noauth_addrs up.client
            then record up { client = env.set_allowed_addrs up.client }
            else up)).auth_ups
        ≡ true
      → (is_none (agreed (env.gotoptions up.client)) ≡ true)
        × ((env.noauth_addrs up.client ≡ true)
            ⊎ ((((env.wantoptions up.client).neg_upap ≡ true) × (env.set.uselogin ≡ false))
                × ((env.null_login up.client).0 ≡ true)))
        × (env.set.need_peer_eap ≡ false)
  behind_loop w up k required e =
      let allowed = record up { client = env.set_allowed_addrs up.client } in
      let same : (if not env.set.auth_required && env.noauth_addrs up.client then allowed else up)
          ≡ up =
        ap (λ b. if not b && env.noauth_addrs up.client then allowed else up) required in
      check_refusal-required up required (
        ap (λ n. ltb n (check_refusal env up).auth_ups) (omega (arith, k.ups))
        ∙ ap (λ u. ltb w.auth_ups (check_refusal env u).auth_ups) (sym same)
        ∙ e)

  -- Authentication of the peer is required, the rest of pppd reports nothing before it returns
  -- from a call, and a change of phase leaves LCP's options alone. If the network phase begins
  -- while the link is being established, then LCP has agreed on no method for the peer, EAP is
  -- not needed for us, and either there are addresses that may be used without authentication, or
  -- PAP was asked for without `login` and the empty name and password have passed `null_login`.
  pub link_established-required :
      (w : World C)
      → env.set.auth_required ≡ true
      → ltb w.auth_ups (link_established env w).auth_ups ≡ true
      → let up = if env.mp_on w.client then w else lowerups env env.protocols w in
        (is_none (agreed (env.gotoptions up.client)) ≡ true)
        × ((env.noauth_addrs up.client ≡ true)
            ⊎ ((((env.wantoptions up.client).neg_upap ≡ true) × (env.set.uselogin ≡ false))
                × ((env.null_login up.client).0 ≡ true)))
        × (env.set.need_peer_eap ≡ false)
  unfolding link_established
  link_established-required w required e =
      let up = if env.mp_on w.client then w else lowerups env env.protocols w in
      let k : After 0 w up =
        if-both (After 0 w) (env.mp_on w.client) w _ (ground arith)
          (lowerups-Quiet env.protocols h.protocols w) in
      behind_loop w up k required e
