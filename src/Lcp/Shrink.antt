-- ===== src/Lcp/Shrink.antt =====
-- A Reject turns off the options that it names, and so a peer cannot reject for ever.
use ppp.Prelude.{
  ℕ, ◌+◌, ◌<◌, ◌≤◌, ◌≡◌, ◌⊎◌, Bool, true, false, Option, none, some, List, [], ◌∷◌, refl, length,
  if◌then◌else◌, arith,
}
use ppp.Lcp.Options.{LcpOptions}
use ppp.Lcp.Reject.{
  Field, mru, asyncmap, eap, chap', upap, lqr', cbcp, magicnumber, pcompression, accompression,
  mrru, ssnhf, endpoint, asked, clear, Rejectable, rejectable, Found, absent, bad, matched,
  rej_form, rej_all, settle_reject, rejci,
}

abbrev pub bit : Bool → ℕ
bit b = if b then 1 else 0

-- How many of the options are on, that is, have their `neg_` field set. Not every one that is on is
-- asked for: a default MRU or map is not sent, and CHAP not behind EAP.
abbrev pub on_count : LcpOptions → ℕ
on_count go =
    bit go.neg_mru
    + bit go.neg_asyncmap
    + bit go.neg_eap
    + bit go.neg_chap
    + bit go.neg_upap
    + bit go.neg_lqr
    + bit go.neg_cbcp
    + bit go.neg_magicnumber
    + bit go.neg_pcompression
    + bit go.neg_accompression
    + bit go.neg_mrru
    + bit go.neg_ssnhf
    + bit go.neg_endpoint

-- What is on in the one is on in the other.
record Within (t go : LcpOptions) : Type 0 where
  mru : bit t.neg_mru ≤ bit go.neg_mru
  asyncmap : bit t.neg_asyncmap ≤ bit go.neg_asyncmap
  eap : bit t.neg_eap ≤ bit go.neg_eap
  chap' : bit t.neg_chap ≤ bit go.neg_chap
  upap : bit t.neg_upap ≤ bit go.neg_upap
  lqr' : bit t.neg_lqr ≤ bit go.neg_lqr
  cbcp : bit t.neg_cbcp ≤ bit go.neg_cbcp
  magicnumber : bit t.neg_magicnumber ≤ bit go.neg_magicnumber
  pcompression : bit t.neg_pcompression ≤ bit go.neg_pcompression
  accompression : bit t.neg_accompression ≤ bit go.neg_accompression
  mrru : bit t.neg_mrru ≤ bit go.neg_mrru
  ssnhf : bit t.neg_ssnhf ≤ bit go.neg_ssnhf
  endpoint : bit t.neg_endpoint ≤ bit go.neg_endpoint

Within-refl : (t : LcpOptions) → Within t t
Within-refl t = ground arith

Within-trans : (a b c : LcpOptions) → Within a b → Within b c → Within a c
Within-trans a b c h k = record {
  mru = omega (arith, h.mru, k.mru);
  asyncmap = omega (arith, h.asyncmap, k.asyncmap);
  eap = omega (arith, h.eap, k.eap);
  chap' = omega (arith, h.chap', k.chap');
  upap = omega (arith, h.upap, k.upap);
  lqr' = omega (arith, h.lqr', k.lqr');
  cbcp = omega (arith, h.cbcp, k.cbcp);
  magicnumber = omega (arith, h.magicnumber, k.magicnumber);
  pcompression = omega (arith, h.pcompression, k.pcompression);
  accompression = omega (arith, h.accompression, k.accompression);
  mrru = omega (arith, h.mrru, k.mrru);
  ssnhf = omega (arith, h.ssnhf, k.ssnhf);
  endpoint = omega (arith, h.endpoint, k.endpoint);
}

clear-Within : (f : Field) (t : LcpOptions) → Within (clear f t) t
unfolding clear
clear-Within mru t = ground arith
clear-Within asyncmap t = ground arith
clear-Within eap t = ground arith
clear-Within chap' t = ground arith
clear-Within upap t = ground arith
clear-Within lqr' t = ground arith
clear-Within cbcp t = ground arith
clear-Within magicnumber t = ground arith
clear-Within pcompression t = ground arith
clear-Within accompression t = ground arith
clear-Within mrru t = ground arith
clear-Within ssnhf t = ground arith
clear-Within endpoint t = ground arith

-- An option that is gone makes the count smaller.
lost_lem :
    (f : Field) (t u go : LcpOptions)
    → Within u (clear f t)
    → Within u go
    → asked f go ≡ true
    → on_count u < on_count go
unfolding clear
lost_lem mru t u go h k a = ground arith
lost_lem asyncmap t u go h k a = ground arith
lost_lem eap t u go h k a = ground arith
lost_lem chap' t u go h k a = ground arith
lost_lem upap t u go h k a = ground arith
lost_lem lqr' t u go h k a = ground arith
lost_lem cbcp t u go h k a = ground arith
lost_lem magicnumber t u go h k a = ground arith
lost_lem pcompression t u go h k a = ground arith
lost_lem accompression t u go h k a = ground arith
lost_lem mrru t u go h k a = ground arith
lost_lem ssnhf t u go h k a = ground arith
lost_lem endpoint t u go h k a = ground arith

abbrev AllAsked : LcpOptions → List Rejectable → Type 0
AllAsked go [] = Unit
AllAsked go (r ∷ rs) = (r.neg ≡ true → asked r.field go ≡ true) × AllAsked go rs

rej_all-Within :
    (rs : List Rejectable) (p : List ℕ) (t u : LcpOptions) → rej_all rs p t ≡ some u → Within u t
unfolding rej_all
rej_all-Within [] [] t u e = ground (arith, Within-refl t)
rej_all-Within [] (b ∷ p) t u e = cc
rej_all-Within (r ∷ rs) p t u e =
    go (if r.neg then rej_form r.opt r.form p else absent) e (rej_all-Within rs)
  where
    go :
        (m : Found)
        → elim m [
          | absent ↦ rej_all rs p t
          | bad ↦ none
          | matched q ↦ rej_all rs q (clear r.field t)
        ]
          ≡ some u
        → ((q : List ℕ) (s v : LcpOptions) → rej_all rs q s ≡ some v → Within v s)
        → Within u t
    go absent e ih = ih p t u e
    go bad e ih = cc
    go (matched q) e ih =
        Within-trans u (clear r.field t) t (ih q (clear r.field t) u e) (clear-Within r.field t)

rej_all-lost :
    (go : LcpOptions) (rs : List Rejectable) (p : List ℕ) (t u : LcpOptions)
    → AllAsked go rs
    → Within t go
    → 0 < length p
    → rej_all rs p t ≡ some u
    → on_count u < on_count go
unfolding rej_all
rej_all-lost go [] [] t u a h n e = omega arith
rej_all-lost go [] (b ∷ p) t u a h n e = cc
rej_all-lost go (r ∷ rs) p t u a h n e =
    step (if r.neg then rej_form r.opt r.form p else absent) refl e
      (rej_all-lost go rs p t u a.1 h n)
  where
    step :
        (m : Found)
        → (if r.neg then rej_form r.opt r.form p else absent) ≡ m
        → elim m [
          | absent ↦ rej_all rs p t
          | bad ↦ none
          | matched q ↦ rej_all rs q (clear r.field t)
        ]
          ≡ some u
        → (rej_all rs p t ≡ some u → on_count u < on_count go)
        → on_count u < on_count go
    step absent c e ih = ih e
    step bad c e ih = cc
    step (matched q) c e ih =
        let on : r.neg ≡ true = ground arith in
        let w = rej_all-Within rs q (clear r.field t) u e in
        let v =
          Within-trans u (clear r.field t) go w
            (Within-trans (clear r.field t) t go (clear-Within r.field t) h) in
        lost_lem r.field t u go w v (a.0 on)

rejectable-AllAsked : (go : LcpOptions) → AllAsked go (rejectable go)
rejectable-AllAsked go = (
  λ e. e,
  (
    λ e. e,
    (
      λ e. e,
      (
        λ e. ground arith,
        (
          λ e. ground arith,
          (λ e. e, (λ e. e, (λ e. e, (λ e. e, (λ e. e, (λ e. e, (λ e. e, (λ e. e, tt)))))))),
        ),
      ),
    ),
  ),
)

-- While LCP is not open, a good Reject that is not empty leaves fewer options on.
rejci_shrinks :
    (go : LcpOptions) (p : List ℕ)
    → 0 < length p
    → (rejci false go p).0 ≡ true
    → on_count (rejci false go p).1 < on_count go
unfolding rejci
rejci_shrinks go p n good = by_result (rej_all (rejectable go) p go) refl good
  where
    by_result :
        (r : Option LcpOptions)
        → rej_all (rejectable go) p go ≡ r
        → (settle_reject false go r).0 ≡ true
        → on_count (settle_reject false go r).1 < on_count go
    by_result none e g = cc
    by_result (some u) e g =
        rej_all-lost go (rejectable go) p go u (rejectable-AllAsked go) (Within-refl go) n e

-- Rejects in a row, each of them good and not empty; and the options after them.
abbrev pub AllGood : LcpOptions → List (List ℕ) → Type 0
AllGood go [] = Unit
AllGood go (p ∷ ps) =
    (0 < length p) × (((rejci false go p).0 ≡ true) × AllGood (rejci false go p).1 ps)

abbrev pub after_all : LcpOptions → List (List ℕ) → LcpOptions
after_all go [] = go
after_all go (p ∷ ps) = after_all (rejci false go p).1 ps

rejects_count :
    (ps : List (List ℕ)) (go : LcpOptions)
    → AllGood go ps
    → length ps + on_count (after_all go ps) ≤ on_count go
rejects_count [] go h = omega arith
rejects_count (p ∷ ps) go h =
    omega (arith, rejci_shrinks go p h.0 h.1.0, rejects_count ps (rejci false go p).1 h.1.1)

bit-le : (b : Bool) → bit b ≤ 1
bit-le true = omega arith
bit-le false = omega arith

on_count-le : (go : LcpOptions) → on_count go ≤ 13
on_count-le go = omega (
  arith,
  bit-le go.neg_mru,
  bit-le go.neg_asyncmap,
  bit-le go.neg_eap,
  bit-le go.neg_chap,
  bit-le go.neg_upap,
  bit-le go.neg_lqr,
  bit-le go.neg_cbcp,
  bit-le go.neg_magicnumber,
  bit-le go.neg_pcompression,
  bit-le go.neg_accompression,
  bit-le go.neg_mrru,
  bit-le go.neg_ssnhf,
  bit-le go.neg_endpoint,
)

-- While LCP is not open, of Rejects in a row that are good and not empty each turns off at least
-- one of the options that are on, sent or not: there are at most as many of them as options are on,
-- less those that are on after them, and so at most 13.
pub rejects_end :
    (go : LcpOptions) (ps : List (List ℕ))
    → AllGood go ps
    → (length ps + on_count (after_all go ps) ≤ on_count go) × (length ps ≤ 13)
rejects_end go ps h = let few = rejects_count ps go h in (few, omega (arith, few, on_count-le go))

-- A Reject that is refused, and any Reject while LCP is open, leaves the options as they are.
rejci_keeps :
    (is_open : Bool) (go : LcpOptions) (p : List ℕ)
    → ((rejci is_open go p).0 ≡ false) ⊎ (is_open ≡ true)
    → (rejci is_open go p).1 ≡ go
unfolding rejci
rejci_keeps is_open go p h = by_result (rej_all (rejectable go) p go) h
  where
    by_result :
        (r : Option LcpOptions)
        → ((settle_reject is_open go r).0 ≡ false) ⊎ (is_open ≡ true)
        → (settle_reject is_open go r).1 ≡ go
    by_result none g = refl
    by_result (some u) g = ground arith
