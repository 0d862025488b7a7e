-- ===== src/Auth/Opens.antt =====
-- pppd/auth.c: the network phase begins when the authentication is complete.
use ppp.Prelude.{
  ℕ, ◌≡◌, ◌≤◌, ◌<◌, refl, sym, ap, ◌∙◌, true, false, ◌&&◌, Option, none, some, List, [], ◌∷◌, take,
  ◌==◌, ltb, if◌then◌else◌, bit_or, arith, eq_of_==, Bool-cases, inl, inr,
}
use ppp.Lcp.Options.{LcpOptions, ppp_chap}
use ppp.Lcp.Request.{chap_digest}
use ppp.Lcp.Req.{ppp_pap, ppp_eap}
use ppp.Lcp.Nak.{and_not}
use ppp.Auth.Defs.{
  authentication_failed, failed_to_authenticate, World, Env, authenticate, new_phase,
}
use ppp.Auth.Established.{
  network_phase, ask_peer, answer_peer, read_passwd, find_passwd, await_auth, start_auth, pap_peer,
  eap_peer,
}
use ppp.Auth.Reports.{
  finish, peer_authenticated, auth_peer_success, auth_withpeer_success, auth_peer_fail,
  auth_withpeer_fail, forget_passwd, withpeer_bits, chap_peer_bits,
}
use ppp.Auth.Masks.{
  peer_bit, withpeer_bit, Method, is_none, mask_zero, agreed, mask, clear, clear_unknown,
  and_not-chap_peer, and_not-pap_peer, and_not-eap_peer, and_not-withpeer_bits,
}
use ppp.Auth.Phases.{After, Reserved, then_After, network_phase-After}
use ppp.Auth.Owed.{
  Report, peer_success, withpeer_success, peer_fail, withpeer_fail, clear_peer, clear_withpeer,
  peer_done, withpeer_done, peer_done_none, withpeer_done_none, none_first, all_done, still_owed,
  peer_kept, withpeer_kept, peer_method, own_method, report, reports,
}

module _ {C : Type 0} (env : Env C) (h : Reserved env) where
  -- `v` is behind a report: what is pending, and whether a network phase has begun.
  record Behind (a b : Option Method) (w v : World C) : Type 0 where
    pending : v.auth_pending ≡ mask a b
    more : w.auth_ups ≤ v.auth_ups
    opened : is_none a && is_none b ≡ true → w.auth_ups < v.auth_ups
    waits : is_none a && is_none b ≡ false → v.auth_ups ≡ w.auth_ups

  finish-Behind :
      (bit : ℕ) (a b : Option Method) (w : World C)
      → and_not w.auth_pending bit ≡ mask a b
      → Behind a b w (finish env bit w)
  unfolding finish
  finish-Behind bit a b w e =
      let v = record w {
        auth_done = bit_or w.auth_done bit;
        auth_pending = and_not w.auth_pending bit;
      } in
      ground (arith, network_phase-After env h v, mask_zero a b)

  -- A report that changes nothing.
  idle-Behind :
      (a b : Option Method) (w v : World C)
      → is_none a && is_none b ≡ false
      → w.auth_pending ≡ mask a b
      → After 0 w v
      → Behind a b w v
  idle-Behind a b w v owed e k = ground arith

  peer_authenticated-Behind :
      (bit : ℕ) (name : List ℕ) (a b : Option Method) (w : World C)
      → and_not w.auth_pending bit ≡ mask a b
      → Behind a b w (peer_authenticated env bit name w)
  unfolding peer_authenticated
  peer_authenticated-Behind bit name a b w e =
      let k = finish-Behind bit a b (record w { peer_authname = take 255 name }) e in
      record { pending = k.pending; more = k.more; opened = k.opened; waits = k.waits }

  auth_peer_success-Behind :
      (p flavor : ℕ) (name : List ℕ) (a b : Option Method) (w : World C)
      → is_none a && is_none b ≡ false
      → w.auth_pending ≡ mask a b
      → Behind (clear p a) b w (auth_peer_success env p flavor name w)
  unfolding auth_peer_success
  auth_peer_success-Behind p flavor name a b w owed e = elim (Bool-cases (p == ppp_chap)) [
    | inl same ↦ rw (eq_of_== p ppp_chap same) (
        peer_authenticated-Behind (chap_peer_bits flavor) name _ b w
          (ap (λ m. and_not m (chap_peer_bits flavor)) e ∙ and_not-chap_peer flavor a b))
    | inr no_chap ↦ elim (Bool-cases (p == ppp_pap)) [
      | inl same ↦ rw (eq_of_== p ppp_pap same) (
          peer_authenticated-Behind pap_peer name _ b w
            (ap (λ m. and_not m pap_peer) e ∙ and_not-pap_peer a b))
      | inr no_pap ↦ elim (Bool-cases (p == ppp_eap)) [
        | inl same ↦ rw (eq_of_== p ppp_eap same) (
            peer_authenticated-Behind eap_peer name _ b w
              (ap (λ m. and_not m eap_peer) e ∙ and_not-eap_peer a b))
        | inr no_eap ↦
            rw (no_chap, no_pap, no_eap, clear_unknown p a no_chap no_pap no_eap)
              (idle-Behind a b w w owed e (ground arith))
      ]
    ]
  ]

  report-Behind :
      (r : Report) (a b : Option Method) (w : World C)
      → is_none a && is_none b ≡ false
      → w.auth_pending ≡ mask a b
      → Behind (clear_peer r a) (clear_withpeer r b) w (report env r w)
  unfolding report auth_withpeer_success auth_peer_fail auth_withpeer_fail
  report-Behind (peer_success p flavor name) a b w owed e =
      auth_peer_success-Behind p flavor name a b w owed e
  report-Behind (withpeer_success p flavor) a b w owed e =
      let f = if p == ppp_pap then forget_passwd w else w in
      let q : f.auth_pending ≡ w.auth_pending = ground arith in
      let u : f.auth_ups ≡ w.auth_ups = ground arith in
      let k = finish-Behind (withpeer_bits p flavor) a (clear p b) f (
        ap (λ m. and_not m (withpeer_bits p flavor)) (q ∙ e)
        ∙ and_not-withpeer_bits p flavor a b) in
      ground (arith, k, u)
  report-Behind peer_fail a b w owed e =
      let v = record w { status = 11 } in
      idle-Behind a b w _ owed e
        (then_After {n = 0} {w = w} (ground arith) (h.lcp_close authentication_failed v))
  report-Behind withpeer_fail a b w owed e =
      let v = record (forget_passwd w) { status = 19 } in
      idle-Behind a b w _ owed e
        (then_After {n = 0} {w = w} (ground arith) (h.lcp_close failed_to_authenticate v))

  finish_more : (bit : ℕ) (w : World C) → w.auth_ups ≤ (finish env bit w).auth_ups
  unfolding finish
  finish_more bit w =
      let v = record w {
        auth_done = bit_or w.auth_done bit;
        auth_pending = and_not w.auth_pending bit;
      } in
      ground (arith, network_phase-After env h v)

  peer_authenticated_more :
      (bit : ℕ) (name : List ℕ) (w : World C)
      → w.auth_ups ≤ (peer_authenticated env bit name w).auth_ups
  unfolding peer_authenticated
  peer_authenticated_more bit name w = finish_more bit (record w { peer_authname = take 255 name })

  report_more : (r : Report) (w : World C) → w.auth_ups ≤ (report env r w).auth_ups
  unfolding report auth_peer_success auth_withpeer_success auth_peer_fail auth_withpeer_fail
  report_more (peer_success p flavor name) w = ground (
    arith,
    peer_authenticated_more (chap_peer_bits flavor) name w,
    peer_authenticated_more pap_peer name w,
    peer_authenticated_more eap_peer name w,
  )
  report_more (withpeer_success p flavor) w =
      let f = if p == ppp_pap then forget_passwd w else w in
      let u : f.auth_ups ≡ w.auth_ups = ground arith in
      omega (arith, u, finish_more (withpeer_bits p flavor) f)
  report_more peer_fail w =
      ground (arith, h.lcp_close authentication_failed (record w { status = 11 }))
  report_more withpeer_fail w =
      ground (arith, h.lcp_close failed_to_authenticate (record (forget_passwd w) { status = 19 }))

  reports_more : (rs : List Report) (w : World C) → w.auth_ups ≤ (reports env rs w).auth_ups
  unfolding reports
  reports_more [] w = omega arith
  reports_more (r ∷ rs) w = omega (arith, reports_more rs (report env r w), report_more r w)

  -- The network phase begins exactly when the last report that is owed has come.
  opens_complete :
      (rs : List Report) (a b : Option Method) (w : World C)
      → is_none a && is_none b ≡ false
      → w.auth_pending ≡ mask a b
      → ltb w.auth_ups (reports env rs w).auth_ups ≡ (peer_done a rs && withpeer_done b rs)
  unfolding reports peer_done withpeer_done
  opens_complete [] a b w owed e = ground arith
  opens_complete (r ∷ rs) a b w owed e =
      let v = report env r w in
      let k = report-Behind r a b w owed e in
      let x = clear_peer r a in
      let y = clear_withpeer r b in
      let after = reports_more rs v in
      elim (Bool-cases (is_none x && is_none y)) [
        | inl all ↦
            all_done w.auth_ups v.auth_ups (reports env rs v).auth_ups (is_none x) (peer_done a rs)
              (is_none y) (withpeer_done b rs) (k.opened all) after all
        | inr not_all ↦
            rw (peer_kept r a rs, withpeer_kept r b rs)
              (still_owed w.auth_ups v.auth_ups (reports env rs v).auth_ups (is_none x)
                (peer_done x rs) (is_none y) (withpeer_done y rs) (k.waits not_all)
                (opens_complete rs x y v not_all k.pending) (peer_done_none x rs)
                (withpeer_done_none y rs))
      ]

  ask_peer-Quiet : (go : LcpOptions) (w : World C) → After 0 w (ask_peer env go w).1
  unfolding ask_peer
  ask_peer-Quiet go w = ground (
    arith,
    h.eap_authpeer env.set.our_name w,
    h.chap_auth_peer env.set.our_name (chap_digest go.chap_mdtype) w,
    h.upap_authpeer w,
  )

  ask_peer_lem : (go : LcpOptions) (w : World C) → (ask_peer env go w).0 ≡ peer_bit (agreed go)
  unfolding ask_peer
  ask_peer_lem go w = ground arith

  read_passwd-Quiet : (s : Option (List ℕ)) (w : World C) → After 0 w (read_passwd s w)
  read_passwd-Quiet none w = ground arith
  read_passwd-Quiet (some secret) w = ground arith

  find_passwd-Quiet : (w : World C) → After 0 w (find_passwd env w)
  unfolding find_passwd
  find_passwd-Quiet w = ground (arith, read_passwd-Quiet (env.get_pap_passwd w.client) w)

  answer_peer-Quiet : (ho : LcpOptions) (w : World C) → After 0 w (answer_peer env ho w).1
  unfolding answer_peer
  answer_peer-Quiet ho w =
      let v = find_passwd env w in
      let k = find_passwd-Quiet w in
      ground (
        arith,
        h.eap_authwithpeer env.set.user w,
        h.chap_auth_with_peer env.set.user (chap_digest ho.chap_mdtype) w,
        h.upap_authwithpeer env.set.user v.passwd v,
      )

  answer_peer_lem :
      (ho : LcpOptions) (w : World C) → (answer_peer env ho w).0 ≡ withpeer_bit (agreed ho)
  unfolding answer_peer
  answer_peer_lem ho w = ground arith

  await_auth_complete :
      (rs : List Report) (a b : Option Method) (auth : ℕ) (w : World C) (n : ℕ)
      → auth ≡ mask a b
      → w.auth_ups ≡ n
      → ltb n (reports env rs (await_auth env auth w)).auth_ups
        ≡ (peer_done a rs && withpeer_done b rs)
  unfolding await_auth
  await_auth_complete rs a b auth w n e ups =
      let u = record w { auth_pending = auth; auth_done = 0 } in
      let v = network_phase env u in
      elim (Bool-cases (is_none a && is_none b)) [
        | inl all ↦
            let nothing_left : (auth == 0) ≡ true = ap (λ m. m == 0) e ∙ mask_zero a b ∙ all in
            rw nothing_left (
              all_done n v.auth_ups (reports env rs v).auth_ups (is_none a) (peer_done a rs)
                (is_none b) (withpeer_done b rs)
                (omega (arith, (network_phase-After env h u).ups, ups)) (reports_more rs v) all
              ∙ none_first a b rs)
        | inr owed ↦
            let some_left : (auth == 0) ≡ false = ap (λ m. m == 0) e ∙ mask_zero a b ∙ owed in
            rw (some_left, sym ups) (opens_complete rs a b u owed e)
      ]

  -- Authentication starts, and the rest of pppd reports nothing before it returns from a call.
  -- Then after any reports of success and failure the network phase has begun, as the calls of
  -- its notifier tell, exactly when both the method that the peer has to use and the one that we
  -- have to use by the options of LCP, each if there is one, have been reported as successful.
  pub start_auth_complete :
      (rs : List Report) (w : World C)
      → ltb w.auth_ups (reports env rs (start_auth env w)).auth_ups
        ≡ (peer_done (peer_method env w) rs && withpeer_done (own_method env w) rs)
  unfolding start_auth new_phase peer_method own_method
  start_auth_complete rs w =
      let v = new_phase env authenticate w in
      let go = env.gotoptions v.client in
      let peer = ask_peer env go v in
      let ho = env.hisoptions (peer.1).client in
      let own = answer_peer env ho (peer.1) in
      await_auth_complete rs (agreed go) (agreed ho) (bit_or peer.0 own.0) (own.1) w.auth_ups
        (rw (ask_peer_lem go v, answer_peer_lem ho (peer.1)) refl)
        (omega (arith, (ask_peer-Quiet go v).ups, (answer_peer-Quiet ho (peer.1)).ups))
