-- ===== src/Lcp/Nakci.antt =====
-- pppd/lcp.c: `lcp_nakci`, the Nak of the authentication protocol, the options that we did not ask
-- for, and the whole.
use ppp.Prelude.{
  ℕ, zero, suc, ◌+◌, ◌-◌, Bool, true, false, not, ◌&&◌, ◌||◌, Option, none, some, List, [], ◌∷◌,
  length, drop, leb, ltb, ◌==◌, if◌then◌else◌,
}
use ppp.Lcp.Options.{LcpOptions, ppp_chap}
use ppp.Lcp.Nak.{
  Nak, zeroed, chap_mdtype, chap_mdtype_d, chap_candigest, digest_differs, and_not, short_of,
  nakci_if, nak_mru, nak_asyncmap, nak_lqr, nak_cbcp, nak_magic, nak_pcompression,
  nak_accompression, nak_mrru, nak_ssnhf, nak_endpoint,
}

-- A PAP or another protocol is suggested: what `try` asks for after it.
unfoldable pub instead_pap : LcpOptions → LcpOptions → Option LcpOptions
instead_pap go t =
    if go.neg_eap
    then some (record t { neg_eap = false })
    else if go.neg_chap
    then some (record t { neg_chap = false })
    else none

unfoldable pub instead_other : LcpOptions → LcpOptions → LcpOptions
instead_other go t =
    if go.neg_eap
    then record t { neg_eap = false }
    else if go.neg_chap
    then record t { neg_chap = false }
    else record t { neg_upap = false }

-- Our digest is refused and not replaced by one that we have: the next one, or none.
unfoldable pub next_digest : LcpOptions → LcpOptions
next_digest t =
    let left = and_not t.chap_mdtype (chap_mdtype t.chap_mdtype) in
    if left == 0
    then record t { chap_mdtype = left; neg_chap = false }
    else record t { chap_mdtype = left }

-- CHAP is suggested, with a digest.
unfoldable pub instead_chap : ℕ → LcpOptions → LcpOptions → Option LcpOptions
instead_chap cichar go t =
    let no_eap = record t { neg_eap = false } in
    if go.neg_eap
    then some (
        if chap_candigest go.chap_mdtype cichar
        then record no_eap { chap_mdtype = chap_mdtype_d cichar }
        else no_eap)
    else if go.neg_chap
    then (if digest_differs cichar go.chap_mdtype
        then some (
            if chap_candigest go.chap_mdtype cichar
            then record t { chap_mdtype = chap_mdtype_d cichar }
            else next_digest t)
        else none)
    else some (record t { neg_upap = false })

-- `try` after a Nak of the authentication protocol, on the option's length and value.
unfoldable pub instead : ℕ → List ℕ → LcpOptions → LcpOptions → Option LcpOptions
instead cilen v go t =
    let cishort = short_of v in
    if cishort == 0xc023 && cilen == 4
    then instead_pap go t
    else if cishort == ppp_chap && cilen == 5
    then elim (drop 2 v) [ [] ↦ none | cichar ∷ rest ↦ instead_chap cichar go t ]
    else some (instead_other go t)

abbrev pub with_try : Option LcpOptions → Nak → Option Nak
with_try none s = none
with_try (some t) s = some (record s { try = t })

-- The Nak of the authentication protocol; `none` for a jump to `bad`.
unfoldable pub nak_auth : LcpOptions → Nak → List ℕ → Option Nak
nak_auth go s (t ∷ l ∷ hi ∷ lo ∷ p) =
    let seen = s.seen in
    let asks = go.neg_chap || go.neg_upap || go.neg_eap in
    if asks && t == 3 && leb 4 l && leb l (length p + 4)
    then with_try (instead l (hi ∷ lo ∷ p) go s.try) (record s {
      seen = record seen { neg_chap = go.neg_chap; neg_upap = go.neg_upap; neg_eap = go.neg_eap };
      rest = drop l s.rest;
    })
    else some s
nak_auth go s _ = some s

-- The known options up to the authentication protocol, and behind it.
unfoldable pub nak_before : LcpOptions → LcpOptions → Nak → Nak
nak_before go wo s =
    nakci_if (go.neg_asyncmap && not (go.asyncmap == 0xFFFFFFFF)) 2 6 (nak_asyncmap go)
      (nakci_if (go.neg_mru && not (go.mru == 1500)) 1 4 (nak_mru wo) s)

unfoldable pub nak_behind : ℕ → Bool → LcpOptions → LcpOptions → Nak → Nak
nak_behind magic treat_as_reject go wo s =
    let s1 = nakci_if go.neg_lqr 4 8 nak_lqr s in
    let s2 = nakci_if go.neg_cbcp 13 3 nak_cbcp s1 in
    let s3 = nakci_if go.neg_magicnumber 5 6 (nak_magic magic) s2 in
    let s4 = nakci_if go.neg_pcompression 7 2 nak_pcompression s3 in
    let s5 = nakci_if go.neg_accompression 8 2 nak_accompression s4 in
    let s6 = nakci_if go.neg_mrru 17 4 (nak_mrru treat_as_reject wo) s5 in
    let s7 = nakci_if go.neg_ssnhf 18 2 nak_ssnhf s6 in nak_endpoint go s7 s7.rest

-- The loop's `switch`: whether an option that the peer adds is bad, and what it makes us ask for.
unfoldable pub is_bad : LcpOptions → LcpOptions → ℕ → ℕ → Bool
is_bad go seen citype cilen =
    if citype == 1
    then (go.neg_mru && not (go.mru == 1500)) || seen.neg_mru || not (cilen == 4)
    else if citype == 2
    then (go.neg_asyncmap && not (go.asyncmap == 0xFFFFFFFF))
      || seen.neg_asyncmap
      || not (cilen == 6)
    else if citype == 3
    then go.neg_chap || seen.neg_chap || go.neg_upap || seen.neg_upap || go.neg_eap || seen.neg_eap
    else if citype == 5
    then go.neg_magicnumber || seen.neg_magicnumber || not (cilen == 6)
    else if citype == 7
    then go.neg_pcompression || seen.neg_pcompression || not (cilen == 2)
    else if citype == 8
    then go.neg_accompression || seen.neg_accompression || not (cilen == 2)
    else if citype == 4
    then go.neg_lqr || seen.neg_lqr || not (cilen == 8)
    else if citype == 17
    then go.neg_mrru || seen.neg_mrru || not (cilen == 4)
    else if citype == 18
    then go.neg_ssnhf || seen.neg_ssnhf || not (cilen == 2)
    else if citype == 19
    then go.neg_endpoint || seen.neg_endpoint || ltb cilen 3
    else false

unfoldable pub adopt : ℕ → List ℕ → LcpOptions → LcpOptions
adopt citype v t =
    if citype == 1
    then (if ltb (short_of v) 1500 then record t { neg_mru = true; mru = short_of v } else t)
    else if citype == 18
    then record t { neg_ssnhf = true }
    else t

-- The loop over the options that are left; the first argument counts the bytes of the last option
-- that are still to be passed over.
unfoldable pub leftover : LcpOptions → LcpOptions → ℕ → List ℕ → LcpOptions → Option LcpOptions
leftover go seen passed [] t = some t
leftover go seen (suc passed) (b ∷ p) t = leftover go seen passed p t
leftover go seen zero (b ∷ []) t = some t
leftover go seen zero (citype ∷ cilen ∷ v) t =
    let rest = leftover go seen (cilen - 2) v (adopt citype v t) in
    if ltb cilen 2 || ltb (length v + 2) cilen
    then none
    else if is_bad go seen citype cilen
    then none
    else rest

-- What `lcp_nakci` returns and leaves: whether the Nak was good, our options, the count of looped
-- replies, and whether `lcp_close` was called for a looped line.
pub record Naked : Type 0 where
  pub good : Bool
  pub options : LcpOptions
  pub numloops : ℕ
  pub closes : Bool

-- `magic`, `lcp_loopbackfail`, whether the machine is open, and `treat_as_reject`.
module _ (magic loopbackfail : ℕ) (is_open treat_as_reject : Bool) where
  abbrev pub settle_nak : LcpOptions → ℕ → Bool → Option LcpOptions → Naked
  settle_nak go numloops looped_back none = record {
    good = false;
    options = go;
    numloops = numloops;
    closes = false;
  }
  settle_nak go numloops looped_back (some t) =
      if is_open
      then record { good = true; options = go; numloops = numloops; closes = false }
      else record {
        good = true;
        options = t;
        numloops = if looped_back then numloops + 1 else 0;
        closes = looped_back && leb loopbackfail (numloops + 1);
      }

  unfoldable pub nak_rest : LcpOptions → LcpOptions → ℕ → Option Nak → Naked
  unfolding nak_behind leftover
  nak_rest go wo numloops none = settle_nak go numloops false none
  nak_rest go wo numloops (some s) =
      let u = nak_behind magic treat_as_reject go wo s in
      settle_nak go numloops u.looped_back (leftover go u.seen 0 u.rest u.try)

  -- `lcp_nakci`.
  unfoldable pub nakci : LcpOptions → LcpOptions → ℕ → List ℕ → Naked
  unfolding nak_before nak_auth
  nakci go wo numloops p =
      let s =
        nak_before go wo (record { seen = zeroed; try = go; looped_back = false; rest = p }) in
      nak_rest go wo numloops (nak_auth go s s.rest)
