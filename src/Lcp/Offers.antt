-- ===== src/Lcp/Offers.antt =====
-- pppd/lcp.c: a peer whose Configure-Request our settings allow, and what we remember of it.
use ppp.Prelude.{
  ◌≤◌, ◌≡◌, refl, Bool, true, false, not, ◌&&◌, ◌||◌, List, [], ◌∷◌, length, ◌==◌, if◌then◌else◌,
}
use ppp.Lcp.Options.{LcpOptions, void, short, chap, long, lqr, char, endp, ci}
use ppp.Lcp.Request.{chap_digest, add_all, addci}
use ppp.Lcp.Nak.{zeroed, and_not, chap_candigest, chap_mdtype_d}
use ppp.Lcp.Reqci.{Policy}
use ppp.Lcp.Walk.{Offer, items, note_all}

-- The settings `c` allow every option that `go` asks for.
pub record Allows (c : Policy) (go : LcpOptions) : Type 0 where
  pub mru : go.neg_mru ≡ true → c.ao.neg_mru ≡ true
  pub mru_value : 128 ≤ go.mru
  pub asyncmap : go.neg_asyncmap ≡ true → c.ao.neg_asyncmap ≡ true
  pub map : and_not c.ao.asyncmap go.asyncmap ≡ 0
  pub upap : go.neg_upap ≡ true → c.ao.neg_upap ≡ true
  pub chap : go.neg_chap ≡ true → c.ao.neg_chap ≡ true
  pub digest : chap_candigest c.ao.chap_mdtype (chap_digest go.chap_mdtype) ≡ true
  pub eap : go.neg_eap ≡ true → c.ao.neg_eap ≡ true
  pub lqr : go.neg_lqr ≡ true → c.ao.neg_lqr ≡ true
  pub cbcp : go.neg_cbcp ≡ false
  pub magicnumber : go.neg_magicnumber ≡ true → c.ao.neg_magicnumber ≡ true
  pub no_loop : (go.magicnumber == c.go.magicnumber) ≡ false
  pub pcompression : go.neg_pcompression ≡ true → c.ao.neg_pcompression ≡ true
  pub accompression : go.neg_accompression ≡ true → c.ao.neg_accompression ≡ true
  pub mrru : go.neg_mrru ≡ true → c.ao.neg_mrru ≡ true
  pub ssnhf : go.neg_ssnhf ≡ true → c.ao.neg_ssnhf ≡ true
  pub multilink : (go.neg_mrru || go.neg_ssnhf) ≡ true → c.multilink ≡ true
  pub endpoint : go.neg_endpoint ≡ true → c.ao.neg_endpoint ≡ true
  pub length_value : length go.endpoint.value ≤ 20

-- The options are requested when they differ from the defaults.
abbrev pub asks_mru : LcpOptions → Bool
asks_mru go = go.neg_mru && not (go.mru == 1500)

abbrev pub asks_map : LcpOptions → Bool
asks_map go = go.neg_asyncmap && not (go.asyncmap == 0xFFFFFFFF)

abbrev pub asks_chap : LcpOptions → Bool
asks_chap go = not go.neg_eap && go.neg_chap

abbrev pub asks_pap : LcpOptions → Bool
asks_pap go = not go.neg_eap && not go.neg_chap && go.neg_upap

-- What each option leaves in `lcp_hisoptions`.
abbrev pub note_mru : LcpOptions → LcpOptions → LcpOptions
note_mru go ho = record ho {
  neg_mru = asks_mru go || ho.neg_mru;
  mru = if asks_mru go then go.mru else ho.mru;
}

abbrev pub note_map : LcpOptions → LcpOptions → LcpOptions
note_map go ho = record ho {
  neg_asyncmap = asks_map go || ho.neg_asyncmap;
  asyncmap = if asks_map go then go.asyncmap else ho.asyncmap;
}

abbrev pub note_eap : LcpOptions → LcpOptions → LcpOptions
note_eap go ho = record ho { neg_eap = go.neg_eap || ho.neg_eap }

abbrev pub note_chap : LcpOptions → LcpOptions → LcpOptions
note_chap go ho = record ho {
  neg_chap = asks_chap go || ho.neg_chap;
  chap_mdtype = if asks_chap go then chap_mdtype_d (chap_digest go.chap_mdtype) else ho.chap_mdtype;
}

abbrev pub note_pap : LcpOptions → LcpOptions → LcpOptions
note_pap go ho = record ho { neg_upap = asks_pap go || ho.neg_upap }

abbrev pub note_magic : LcpOptions → LcpOptions → LcpOptions
note_magic go ho = record ho {
  neg_magicnumber = go.neg_magicnumber || ho.neg_magicnumber;
  magicnumber = if go.neg_magicnumber then go.magicnumber else ho.magicnumber;
}

abbrev pub note_pcompression : LcpOptions → LcpOptions → LcpOptions
note_pcompression go ho = record ho {
  neg_pcompression = go.neg_pcompression || ho.neg_pcompression;
}

abbrev pub note_accompression : LcpOptions → LcpOptions → LcpOptions
note_accompression go ho = record ho {
  neg_accompression = go.neg_accompression || ho.neg_accompression;
}

abbrev pub note_mrru : LcpOptions → LcpOptions → LcpOptions
note_mrru go ho = record ho {
  neg_mrru = go.neg_mrru || ho.neg_mrru;
  mrru = if go.neg_mrru then go.mrru else ho.mrru;
}

abbrev pub note_ssnhf : LcpOptions → LcpOptions → LcpOptions
note_ssnhf go ho = record ho { neg_ssnhf = go.neg_ssnhf || ho.neg_ssnhf }

abbrev pub note_endpoint : LcpOptions → LcpOptions → LcpOptions
note_endpoint go ho = record ho {
  neg_endpoint = go.neg_endpoint || ho.neg_endpoint;
  endpoint = if go.neg_endpoint then go.endpoint else ho.endpoint;
}

abbrev pub offers : LcpOptions → List Offer
offers go =
    record { item = ci 1 (asks_mru go) (short go.mru); noted = note_mru go }
    ∷ record { item = ci 2 (asks_map go) (long go.asyncmap); noted = note_map go }
    ∷ record { item = ci 3 go.neg_eap (short 0xc227); noted = note_eap go }
    ∷ record {
      item = ci 3 (asks_chap go) (chap (chap_digest go.chap_mdtype));
      noted = note_chap go;
    }
    ∷ record { item = ci 3 (asks_pap go) (short 0xc023); noted = note_pap go }
    ∷ record { item = ci 4 go.neg_lqr (lqr go.lqr_period); noted = λ x. x }
    ∷ record { item = ci 13 go.neg_cbcp (char 6); noted = λ x. x }
    ∷ record { item = ci 5 go.neg_magicnumber (long go.magicnumber); noted = note_magic go }
    ∷ record { item = ci 7 go.neg_pcompression void; noted = note_pcompression go }
    ∷ record { item = ci 8 go.neg_accompression void; noted = note_accompression go }
    ∷ record { item = ci 17 go.neg_mrru (short go.mrru); noted = note_mrru go }
    ∷ record { item = ci 18 go.neg_ssnhf void; noted = note_ssnhf go }
    ∷ record {
      item = ci 19 go.neg_endpoint (endp go.endpoint.class go.endpoint.value);
      noted = note_endpoint go;
    }
    ∷ []

-- What the one remembers of the other: the options of `go` that differ from the defaults, with one
-- authentication protocol.
unfoldable pub remembered : LcpOptions → LcpOptions
unfolding chap_digest chap_mdtype_d
remembered go = record {
  neg_mru = asks_mru go;
  neg_asyncmap = asks_map go;
  neg_upap = asks_pap go;
  neg_chap = asks_chap go;
  neg_eap = go.neg_eap;
  neg_magicnumber = go.neg_magicnumber;
  neg_pcompression = go.neg_pcompression;
  neg_accompression = go.neg_accompression;
  neg_lqr = false;
  neg_cbcp = false;
  neg_mrru = go.neg_mrru;
  neg_ssnhf = go.neg_ssnhf;
  neg_endpoint = go.neg_endpoint;
  mru = if asks_mru go then go.mru else 0;
  mrru = if go.neg_mrru then go.mrru else 0;
  chap_mdtype = if asks_chap go then chap_mdtype_d (chap_digest go.chap_mdtype) else 0;
  asyncmap = if asks_map go then go.asyncmap else 0;
  magicnumber = if go.neg_magicnumber then go.magicnumber else 0;
  lqr_period = 0;
  endpoint = if go.neg_endpoint then go.endpoint else record { class = 0; value = [] };
}

pub addci_items : (go : LcpOptions) → addci go ≡ add_all (items (offers go))
unfolding addci
addci_items go = refl

or_false : (b : Bool) → (b || false) ≡ b
or_false true = refl
or_false false = refl

pub note_all_lem : (go : LcpOptions) → note_all (offers go) zeroed ≡ remembered go
unfolding remembered
note_all_lem go =
    rw
      (
        or_false (asks_mru go),
        or_false (asks_map go),
        or_false go.neg_eap,
        or_false (asks_chap go),
        or_false (asks_pap go),
        or_false go.neg_magicnumber,
        or_false go.neg_pcompression,
        or_false go.neg_accompression,
        or_false go.neg_mrru,
        or_false go.neg_ssnhf,
        or_false go.neg_endpoint,
      )
      refl
