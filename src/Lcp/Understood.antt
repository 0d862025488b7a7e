-- ===== src/Lcp/Understood.antt =====
-- Two peers of pppd/lcp.c: `lcp_reqci` of the one, on the Configure-Request of the other.
use ppp.Prelude.{ℕ, ◌<◌, ◌≡◌, refl, ap, ◌∙◌, true, false, [], arith}
use ppp.Lcp.Options.{LcpOptions, void, short, chap, long, lqr, char, endp, ci, put_long}
use ppp.Lcp.Request.{chap_digest, addci}
use ppp.Lcp.Agreement.{IsSane, chap_digest-lt}
use ppp.Lcp.Nak.{zeroed, long_of}
use ppp.Lcp.Req.{
  ack, check_mru, check_asyncmap, check_pap, check_chap, check_eap, check_auth, check_lqr,
  check_magic, check_pcompression, check_accompression, check_mrru, check_ssnhf, check_endpoint,
}
use ppp.Lcp.Reqci.{Policy, Req, check_ci, packet_for, req_all, reqci}
use ppp.Lcp.Walk.{IsWelcome, AllWelcome, req_all-welcome}
use ppp.Lcp.Offers.{
  Allows, asks_mru, asks_map, asks_chap, asks_pap, note_mru, note_map, note_eap, note_chap,
  note_pap, note_magic, note_pcompression, note_accompression, note_mrru, note_ssnhf, note_endpoint,
  offers, remembered, addci_items, note_all_lem,
}

long_back : (v : ℕ) → v < 4294967296 → long_of (put_long v []) ≡ v
long_back v h = omega arith

module _ (c : Policy) (go : LcpOptions) (a : Allows c go) (s : IsSane go) where
  mru-IsWelcome :
      (ho : LcpOptions)
      → IsWelcome c (record { item = ci 1 (asks_mru go) (short go.mru); noted = note_mru go }) ho
  unfolding check_ci check_mru
  mru-IsWelcome ho = record {
    fits = λ on. s.mru;
    agreed = λ on left. ground (arith, on, a.mru, s.mru, a.mru_value);
    absent = λ off. rw off refl;
  }

  asyncmap-IsWelcome :
      (ho : LcpOptions)
      → IsWelcome c
          (record { item = ci 2 (asks_map go) (long go.asyncmap); noted = note_map go })
          ho
  unfolding check_ci check_asyncmap
  asyncmap-IsWelcome ho = record {
    fits = λ on. s.asyncmap;
    agreed = λ on left. ground (arith, on, a.asyncmap, a.map, s.asyncmap, long_back go.asyncmap);
    absent = λ off. rw off refl;
  }

  eap-IsWelcome :
      (ho : LcpOptions)
      → ho.neg_upap ≡ false
      → ho.neg_chap ≡ false
      → IsWelcome c (record { item = ci 3 go.neg_eap (short 0xc227); noted = note_eap go }) ho
  unfolding check_ci check_auth check_eap
  eap-IsWelcome ho h k = record {
    fits = λ on. omega arith;
    agreed = λ on left. ground (arith, on, a.eap, h, k);
    absent = λ off. rw off refl;
  }

  chap-IsWelcome :
      (ho : LcpOptions)
      → ho.neg_upap ≡ false
      → (asks_chap go ≡ true → ho.neg_eap ≡ false)
      → IsWelcome c
          (record {
            item = ci 3 (asks_chap go) (chap (chap_digest go.chap_mdtype));
            noted = note_chap go;
          })
          ho
  unfolding check_ci check_auth check_chap
  chap-IsWelcome ho h k = record {
    fits = λ on. chap_digest-lt go.chap_mdtype;
    agreed = λ on left. ground (arith, on, a.chap, a.digest, chap_digest-lt go.chap_mdtype, h, k);
    absent = λ off. rw off refl;
  }

  pap-IsWelcome :
      (ho : LcpOptions)
      → (asks_pap go ≡ true → ho.neg_chap ≡ false)
      → (asks_pap go ≡ true → ho.neg_eap ≡ false)
      → IsWelcome c (record { item = ci 3 (asks_pap go) (short 0xc023); noted = note_pap go }) ho
  unfolding check_ci check_auth check_pap
  pap-IsWelcome ho h k = record {
    fits = λ on. omega arith;
    agreed = λ on left. ground (arith, on, a.upap, h, k);
    absent = λ off. rw off refl;
  }

  lqr-IsWelcome :
      (ho : LcpOptions)
      → IsWelcome c (record { item = ci 4 go.neg_lqr (lqr go.lqr_period); noted = λ x. x }) ho
  unfolding check_ci check_lqr
  lqr-IsWelcome ho = record {
    fits = λ on. s.lqr_period;
    agreed = λ on left. ground (arith, on, a.lqr);
    absent = λ off. refl;
  }

  cbcp-IsWelcome :
      (ho : LcpOptions)
      → IsWelcome c (record { item = ci 13 go.neg_cbcp (char 6); noted = λ x. x }) ho
  unfolding check_ci
  cbcp-IsWelcome ho = record {
    fits = λ on. omega arith;
    agreed = λ on left. ground (arith, on, a.cbcp);
    absent = λ off. refl;
  }

  magicnumber-IsWelcome :
      (ho : LcpOptions)
      → IsWelcome c
          (record { item = ci 5 go.neg_magicnumber (long go.magicnumber); noted = note_magic go })
          ho
  unfolding check_ci check_magic
  magicnumber-IsWelcome ho = record {
    fits = λ on. s.magicnumber;
    agreed = λ on left.
        ground (arith, on, a.magicnumber, a.no_loop, long_back go.magicnumber, s.magicnumber);
    absent = λ off. rw off refl;
  }

  pcompression-IsWelcome :
      (ho : LcpOptions)
      → IsWelcome c
          (record { item = ci 7 go.neg_pcompression void; noted = note_pcompression go })
          ho
  unfolding check_ci check_pcompression
  pcompression-IsWelcome ho = record {
    fits = λ on. tt;
    agreed = λ on left. ground (arith, on, a.pcompression);
    absent = λ off. rw off refl;
  }

  accompression-IsWelcome :
      (ho : LcpOptions)
      → IsWelcome c
          (record { item = ci 8 go.neg_accompression void; noted = note_accompression go })
          ho
  unfolding check_ci check_accompression
  accompression-IsWelcome ho = record {
    fits = λ on. tt;
    agreed = λ on left. ground (arith, on, a.accompression);
    absent = λ off. rw off refl;
  }

  mrru-IsWelcome :
      (ho : LcpOptions)
      → IsWelcome c (record { item = ci 17 go.neg_mrru (short go.mrru); noted = note_mrru go }) ho
  unfolding check_ci check_mrru
  mrru-IsWelcome ho = record {
    fits = λ on. s.mrru;
    agreed = λ on left. ground (arith, on, a.mrru, a.multilink, s.mrru);
    absent = λ off. rw off refl;
  }

  ssnhf-IsWelcome :
      (ho : LcpOptions)
      → IsWelcome c (record { item = ci 18 go.neg_ssnhf void; noted = note_ssnhf go }) ho
  unfolding check_ci check_ssnhf
  ssnhf-IsWelcome ho = record {
    fits = λ on. tt;
    agreed = λ on left. ground (arith, on, a.ssnhf, a.multilink);
    absent = λ off. rw off refl;
  }

  endpoint-IsWelcome :
      (ho : LcpOptions)
      → IsWelcome c
          (record {
            item = ci 19 go.neg_endpoint (endp go.endpoint.class go.endpoint.value);
            noted = note_endpoint go;
          })
          ho
  unfolding check_ci check_endpoint
  endpoint-IsWelcome ho = record {
    fits = λ on. (s.class, s.length_value);
    agreed = λ on left. ground (arith, on, a.endpoint, a.length_value, s.class);
    absent = λ off. rw off refl;
  }

  -- The options by which the peer's options stand when they are reached.
  offers-AllWelcome : AllWelcome c (offers go) zeroed
  offers-AllWelcome =
      let ho = note_map go (note_mru go zeroed) in
      let ho4 = note_chap go (note_eap go ho) in
      let ho5 = note_pap go ho4 in
      let ho8 = note_magic go ho5 in
      let ho9 = note_pcompression go ho8 in
      let ho10 = note_accompression go ho9 in
      let ho11 = note_mrru go ho10 in
      (
        mru-IsWelcome zeroed,
        (
          asyncmap-IsWelcome (note_mru go zeroed),
          (
            eap-IsWelcome ho refl refl,
            (
              chap-IsWelcome (note_eap go ho) refl (λ on. ground arith),
              (
                pap-IsWelcome ho4 (λ on. ground arith) (λ on. ground arith),
                (
                  lqr-IsWelcome ho5,
                  (
                    cbcp-IsWelcome ho5,
                    (
                      magicnumber-IsWelcome ho5,
                      (
                        pcompression-IsWelcome ho8,
                        (
                          accompression-IsWelcome ho9,
                          (
                            mrru-IsWelcome ho10,
                            (ssnhf-IsWelcome ho11, (endpoint-IsWelcome (note_ssnhf go ho11), tt)),
                          ),
                        ),
                      ),
                    ),
                  ),
                ),
              ),
            ),
          ),
        ),
      )

  -- `go` are options whose values fit their fields, and `c` are settings that allow each of them:
  -- the MRU is at least 128, the character map has all of ours, the digest is one of ours, the
  -- magic number is not ours, the discriminator has at most 20 bytes, multilink is on if it is
  -- asked for, and callback is not. Then `lcp_reqci` acknowledges the Configure-Request that
  -- `lcp_addci` makes of `go`, byte for byte, and remembers the options that are asked for with
  -- their values, but for link quality reports, of which it remembers nothing.
  pub reqci-addci : reqci c (addci go) ≡ record { rc = ack; packet = addci go; ho = remembered go }
  unfolding reqci
  reqci-addci =
      let start : Req = record { rc = ack; ho = zeroed; hints = []; rejected = [] } in
      ap (λ t. record { rc = t.rc; packet = packet_for t.rc (addci go) t; ho = t.ho })
        (ap (λ p. req_all c 0 p start) (addci_items go)
          ∙ req_all-welcome c (offers go) start offers-AllWelcome)
      ∙ ap (λ ho. record { rc = ack; packet = addci go; ho = ho }) (note_all_lem go)
