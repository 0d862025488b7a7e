-- ===== src/Lcp/NakLimits.antt =====
-- What a Configure-Nak can make us ask for: the steps of `lcp_nakci` of pppd/lcp.c together.
use ppp.Prelude.{
  ℕ, zero, suc, ◌+◌, ◌-◌, ◌<◌, ◌≡◌, refl, Bool, true, false, not, ◌&&◌, ◌||◌, Option, none, some,
  List, [], ◌∷◌, length, drop, if◌then◌else◌, arith, ltb, ◌==◌,
}
use ppp.Lcp.Options.{LcpOptions}
use ppp.Lcp.Nak.{
  Nak, zeroed, on_value, option_at, nakci_if, nak_mru, nak_asyncmap, nak_lqr, nak_cbcp, nak_magic,
  nak_pcompression, nak_accompression, nak_mrru, nak_ssnhf,
}
use ppp.Lcp.Nakci.{
  nak_auth, nak_before, nak_behind, is_bad, adopt, leftover, settle_nak, nak_rest, nakci,
}
use ppp.Lcp.Conceded.{
  Conceded, nak_mru-Conceded, nak_asyncmap-Conceded, nak_lqr-Conceded, nak_cbcp-Conceded,
  nak_magic-Conceded, nak_pcompression-Conceded, nak_accompression-Conceded, nak_mrru-Conceded,
  nak_ssnhf-Conceded, nak_endpoint-Conceded,
}
use ppp.Lcp.NakAuth.{nak_auth-Conceded}

module _ (d k : ℕ) (go wo : LcpOptions) where
  abbrev Fine : LcpOptions → Type 0
  Fine t = Conceded d k go wo t

  on_value-Conceded :
      (r : Option (List ℕ)) (s : Nak) (code : List ℕ → Nak)
      → ((v : List ℕ) → Fine (code v).try)
      → Fine s.try
      → Fine (on_value r s code).try
  on_value-Conceded none s code c h = h
  on_value-Conceded (some v) s code c h = c v

  nakci_if-Conceded :
      (neg : Bool) (opt n : ℕ) (code : List ℕ → Nak → Nak) (s : Nak)
      → ((v : List ℕ) (u : Nak) → Fine u.try → Fine (code v u).try)
      → Fine s.try
      → Fine (nakci_if neg opt n code s).try
  unfolding nakci_if
  nakci_if-Conceded true opt n code s c h =
      on_value-Conceded (option_at opt n s.rest) s (λ v. code v (record s { rest = drop n s.rest }))
        (λ v. c v (record s { rest = drop n s.rest }) h) h
  nakci_if-Conceded false opt n code s c h = h

  nak_before-Conceded : (s : Nak) → Fine s.try → Fine (nak_before go wo s).try
  unfolding nak_before
  nak_before-Conceded s h =
      let s1 = nakci_if (go.neg_mru && not (go.mru == 1500)) 1 4 (nak_mru wo) s in
      nakci_if-Conceded (go.neg_asyncmap && not (go.asyncmap == 0xFFFFFFFF)) 2 6 (nak_asyncmap go)
        s1 (nak_asyncmap-Conceded d k go wo)
        (nakci_if-Conceded (go.neg_mru && not (go.mru == 1500)) 1 4 (nak_mru wo) s
          (nak_mru-Conceded d k go wo) h)

  nak_behind-Conceded :
      (magic : ℕ) (b : Bool) (s : Nak) → Fine s.try → Fine (nak_behind magic b go wo s).try
  unfolding nak_behind
  nak_behind-Conceded magic b s h =
      let s1 = nakci_if go.neg_lqr 4 8 nak_lqr s in
      let h1 : Fine s1.try =
        nakci_if-Conceded go.neg_lqr 4 8 nak_lqr s (nak_lqr-Conceded d k go wo) h in
      let s2 = nakci_if go.neg_cbcp 13 3 nak_cbcp s1 in
      let h2 : Fine s2.try =
        nakci_if-Conceded go.neg_cbcp 13 3 nak_cbcp s1 (nak_cbcp-Conceded d k go wo) h1 in
      let s3 = nakci_if go.neg_magicnumber 5 6 (nak_magic magic) s2 in
      let h3 : Fine s3.try =
        nakci_if-Conceded go.neg_magicnumber 5 6 (nak_magic magic) s2
          (nak_magic-Conceded d k go wo magic) h2 in
      let s4 = nakci_if go.neg_pcompression 7 2 nak_pcompression s3 in
      let h4 : Fine s4.try =
        nakci_if-Conceded go.neg_pcompression 7 2 nak_pcompression s3
          (nak_pcompression-Conceded d k go wo) h3 in
      let s5 = nakci_if go.neg_accompression 8 2 nak_accompression s4 in
      let h5 : Fine s5.try =
        nakci_if-Conceded go.neg_accompression 8 2 nak_accompression s4
          (nak_accompression-Conceded d k go wo) h4 in
      let s6 = nakci_if go.neg_mrru 17 4 (nak_mrru b wo) s5 in
      let h6 : Fine s6.try =
        nakci_if-Conceded go.neg_mrru 17 4 (nak_mrru b wo) s5 (nak_mrru-Conceded d k go wo b) h5 in
      let s7 = nakci_if go.neg_ssnhf 18 2 nak_ssnhf s6 in
      let h7 : Fine s7.try =
        nakci_if-Conceded go.neg_ssnhf 18 2 nak_ssnhf s6 (nak_ssnhf-Conceded d k go wo) h6 in
      nak_endpoint-Conceded d k go wo s7 s7.rest h7

  adopt-Conceded : (t : ℕ) (v : List ℕ) (y : LcpOptions) → Fine y → Fine (adopt t v y)
  unfolding adopt
  adopt-Conceded t v y h = ground arith

  guarded :
      (b : Bool) (x : Option LcpOptions) (u : LcpOptions)
      → (if b then none else x) ≡ some u
      → x ≡ some u
  guarded true x u e = absurd (ground (arith, e))
  guarded false x u e = e

  leftover-Conceded :
      (seen : LcpOptions) (n : ℕ) (p : List ℕ) (t u : LcpOptions)
      → Fine t
      → leftover go seen n p t ≡ some u
      → Fine u
  unfolding leftover
  leftover-Conceded seen n [] t u h e = ground arith
  leftover-Conceded seen (suc n) (b ∷ p) t u h e = leftover-Conceded seen n p t u h e
  leftover-Conceded seen zero (b ∷ []) t u h e = ground arith
  leftover-Conceded seen zero (c ∷ l ∷ v) t u h e =
      let more = leftover-Conceded seen (l - 2) v (adopt c v t) u (adopt-Conceded c v t h) in
      more (
        guarded (is_bad go seen c l) (leftover go seen (l - 2) v (adopt c v t)) u
          (guarded (ltb l 2 || ltb (length v + 2) l) _ u e))

  module _ (magic loopbackfail : ℕ) (is_open treat_as_reject : Bool) where
    settle_nak-Conceded :
        (numloops : ℕ) (looped : Bool) (r : Option LcpOptions)
        → Fine go
        → ((t : LcpOptions) → r ≡ some t → Fine t)
        → Fine (settle_nak magic loopbackfail is_open treat_as_reject go numloops looped r).options
    settle_nak-Conceded numloops looped none h f = h
    settle_nak-Conceded numloops looped (some t) h f = ground (arith, f t refl)

    nak_rest-Conceded :
        (numloops : ℕ) (r : Option Nak)
        → Fine go
        → ((s : Nak) → r ≡ some s → Fine s.try)
        → Fine (nak_rest magic loopbackfail is_open treat_as_reject go wo numloops r).options
    unfolding nak_rest
    nak_rest-Conceded numloops none h f = h
    nak_rest-Conceded numloops (some s) h f =
        let u = nak_behind magic treat_as_reject go wo s in
        let fine = nak_behind-Conceded magic treat_as_reject s (f s refl) in
        settle_nak-Conceded numloops u.looped_back (leftover go u.seen 0 u.rest u.try) h
          (λ t. leftover-Conceded u.seen 0 u.rest u.try t fine)

    -- Whatever a Configure-Nak says, of the digests for CHAP, the protocols for authentication and
    -- the other options we ask for none that we did not ask for before, but for an MRU and for short
    -- sequence numbers; every character of our map is still in it; and an MRU or an MRRU is the one
    -- from before, or at most the one that we want, or (an MRU) at most 1500. The condition: our
    -- mask of digests has no bits but those of the three digests.
    pub nakci-Conceded :
        (numloops : ℕ) (p : List ℕ)
        → go.chap_mdtype < 8
        → Conceded d k go wo
            (nakci magic loopbackfail is_open treat_as_reject go wo numloops p).options
    unfolding nakci
    nakci-Conceded numloops p h =
        let start : Fine go = ground arith in
        let s0 : Nak = record { seen = zeroed; try = go; looped_back = false; rest = p } in
        let s = nak_before go wo s0 in
        nak_rest-Conceded numloops (nak_auth go s s.rest) start
          (λ u. nak_auth-Conceded d k go wo s u s.rest (nak_before-Conceded s0 start))
