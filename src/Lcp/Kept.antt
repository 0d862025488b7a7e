-- ===== src/Lcp/Kept.antt =====
-- Configure-Naks that leave our options alone, and one that is meant to: `lcp_nakci` of pppd/lcp.c.
use ppp.Prelude.{
  ℕ, ◌<◌, ◌≡◌, ◌⊎◌, refl, ap, Bool, true, false, not, Option, none, some, List, [], ◌∷◌, drop,
  arith, ◌==◌, ◌&&◌, ◌||◌, every_below, every_below-test,
}
use ppp.Lcp.Options.{LcpOptions}
use ppp.Lcp.Request.{chap_digest}
use ppp.Lcp.Nak.{
  Nak, zeroed, chap_mdtype_d, chap_candigest, digest_differs, nakci_if, option_at, nak_mru,
  nak_asyncmap, nak_lqr, nak_cbcp, nak_magic, nak_pcompression, nak_accompression, nak_mrru,
  nak_ssnhf, nak_endpoint,
}
use ppp.Lcp.Nakci.{
  instead, instead_chap, nak_before, nak_auth, nak_behind, leftover, settle_nak, nak_rest, nakci,
  Naked,
}

-- The options and the count are those from before, and LCP is not closed.
abbrev pub Unmoved : LcpOptions → ℕ → Naked → Type 0
Unmoved go numloops n = (n.options ≡ go) × ((n.numloops ≡ numloops) × (n.closes ≡ false))

module _ (magic loopbackfail : ℕ) (is_open treat_as_reject : Bool) (go wo : LcpOptions) where
  abbrev Keeps : ℕ → Naked → Type 0
  Keeps numloops n = (n.good ≡ false) ⊎ (is_open ≡ true) → Unmoved go numloops n

  settle-Keeps :
      (numloops : ℕ) (looped : Bool) (r : Option LcpOptions)
      → Keeps numloops (settle_nak magic loopbackfail is_open treat_as_reject go numloops looped r)
  settle-Keeps numloops looped none h = ground arith
  settle-Keeps numloops looped (some t) h = ground arith

  nak_rest-Keeps :
      (numloops : ℕ) (r : Option Nak)
      → Keeps numloops (nak_rest magic loopbackfail is_open treat_as_reject go wo numloops r)
  unfolding nak_rest
  nak_rest-Keeps numloops none = settle-Keeps numloops false none
  nak_rest-Keeps numloops (some s) =
      let u = nak_behind magic treat_as_reject go wo s in
      settle-Keeps numloops u.looped_back (leftover go u.seen 0 u.rest u.try)

  -- A Nak that is refused, and any Nak while LCP is open, leaves the options and the count of looped
  -- replies as they are, and does not close LCP.
  nakci_keeps :
      (numloops : ℕ) (p : List ℕ)
      → ((nakci magic loopbackfail is_open treat_as_reject go wo numloops p).good ≡ false)
        ⊎ (is_open ≡ true)
      → Unmoved go numloops (nakci magic loopbackfail is_open treat_as_reject go wo numloops p)
  unfolding nakci
  nakci_keeps numloops p =
      let s =
        nak_before go wo (record { seen = zeroed; try = go; looped_back = false; rest = p }) in
      nak_rest-Keeps numloops (nak_auth go s s.rest)

own_table :
    every_below
      (λ m. (m == 0) || (digest_differs (chap_digest m) m && chap_candigest m (chap_digest m)))
      8
    ≡ true
unfolding every_below digest_differs chap_digest chap_candigest
own_table = refl

-- The test for our own digest does not find it: we ask for just that digest next.
instead_chap-own :
    (go t : LcpOptions)
    → go.neg_eap ≡ false
    → go.neg_chap ≡ true
    → 0 < go.chap_mdtype
    → go.chap_mdtype < 8
    → instead_chap (chap_digest go.chap_mdtype) go t
      ≡ some (record t { chap_mdtype = chap_mdtype_d (chap_digest go.chap_mdtype) })
unfolding instead_chap
instead_chap-own go t ne ch some_digest small = ground (
  arith,
  every_below-test
      (λ m. (m == 0) || (digest_differs (chap_digest m) m && chap_candigest m (chap_digest m))) 8
      go.chap_mdtype small own_table,
)

-- A macro whose option does not come next does nothing.
nakci_if_skips :
    (neg : Bool) (opt n : ℕ) (code : List ℕ → Nak → Nak) (s : Nak)
    → option_at opt n s.rest ≡ none
    → nakci_if neg opt n code s ≡ s
unfolding nakci_if
nakci_if_skips true opt n code s e = rw e refl
nakci_if_skips false opt n code s e = refl

nak_behind_skips :
    (magic : ℕ) (treat_as_reject : Bool) (go wo : LcpOptions) (s : Nak)
    → s.rest ≡ []
    → nak_behind magic treat_as_reject go wo s ≡ s
unfolding nak_behind nak_endpoint option_at
nak_behind_skips magic treat_as_reject go wo s e =
    let nothing : (opt n : ℕ) → option_at opt n s.rest ≡ none = λ opt n. ap (option_at opt n) e in
    rw
      (
        nakci_if_skips go.neg_lqr 4 8 nak_lqr s (nothing 4 8),
        nakci_if_skips go.neg_cbcp 13 3 nak_cbcp s (nothing 13 3),
        nakci_if_skips go.neg_magicnumber 5 6 (nak_magic magic) s (nothing 5 6),
        nakci_if_skips go.neg_pcompression 7 2 nak_pcompression s (nothing 7 2),
        nakci_if_skips go.neg_accompression 8 2 nak_accompression s (nothing 8 2),
        nakci_if_skips go.neg_mrru 17 4 (nak_mrru treat_as_reject wo) s (nothing 17 4),
        nakci_if_skips go.neg_ssnhf 18 2 nak_ssnhf s (nothing 18 2),
      )
      (ap (nak_endpoint go s) e)

-- The option of a Nak that suggests a digest for CHAP.
abbrev pub suggestion : ℕ → List ℕ
suggestion digest = 3 ∷ 5 ∷ 0xc2 ∷ 0x23 ∷ digest ∷ []

-- The state of `lcp_nakci` behind the suggestion of our own digest.
abbrev after_suggestion : LcpOptions → Nak → Nak
after_suggestion go s =
    let seen = s.seen in
    let t = s.try in
    record s {
      seen = record seen { neg_chap = go.neg_chap; neg_upap = go.neg_upap; neg_eap = go.neg_eap };
      try = record t { chap_mdtype = chap_mdtype_d (chap_digest go.chap_mdtype) };
      rest = drop 5 s.rest;
    }

nak_auth-own :
    (go : LcpOptions) (s : Nak)
    → go.neg_eap ≡ false
    → go.neg_chap ≡ true
    → 0 < go.chap_mdtype
    → go.chap_mdtype < 8
    → nak_auth go s (suggestion (chap_digest go.chap_mdtype)) ≡ some (after_suggestion go s)
unfolding nak_auth instead
nak_auth-own go s ne ch some_digest small =
    let asks : go.neg_chap || go.neg_upap || go.neg_eap ≡ true = ground (arith, ch) in
    rw (asks, instead_chap-own go s.try ne ch some_digest small) refl

-- A Nak that suggests just the digest that we asked for is taken for good while LCP is not open,
-- though the code means it to be bad: of our options, only the mask of digests can change, to that
-- digest alone. The conditions: we ask for CHAP and not for EAP, and our mask of digests is not
-- empty and has no bits but those of the three digests.
pub own_digest_accepted :
    (magic loopbackfail : ℕ) (treat_as_reject : Bool) (go wo : LcpOptions) (numloops : ℕ)
    → go.neg_eap ≡ false
    → go.neg_chap ≡ true
    → 0 < go.chap_mdtype
    → go.chap_mdtype < 8
    → nakci magic loopbackfail false treat_as_reject go wo numloops
        (suggestion (chap_digest go.chap_mdtype))
      ≡ record {
        good = true;
        options = record go { chap_mdtype = chap_mdtype_d (chap_digest go.chap_mdtype) };
        numloops = 0;
        closes = false;
      }
unfolding nakci nak_rest nak_before leftover option_at
own_digest_accepted magic loopbackfail treat_as_reject go wo numloops ne ch some_digest small =
    let p = suggestion (chap_digest go.chap_mdtype) in
    let s : Nak = record { seen = zeroed; try = go; looped_back = false; rest = p } in
    rw
      (
        nakci_if_skips (go.neg_mru && not (go.mru == 1500)) 1 4 (nak_mru wo) s refl,
        nakci_if_skips (go.neg_asyncmap && not (go.asyncmap == 0xFFFFFFFF)) 2 6 (nak_asyncmap go) s
            refl,
        nak_auth-own go s ne ch some_digest small,
        nak_behind_skips magic treat_as_reject go wo (after_suggestion go s) refl,
      )
      refl
