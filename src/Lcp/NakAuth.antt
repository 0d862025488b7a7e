-- ===== src/Lcp/NakAuth.antt =====
-- What a Nak of the authentication protocol can make us ask for: `lcp_nakci` of pppd/lcp.c.
use ppp.Prelude.{
  ℕ, ◌≡◌, refl, Bool, true, false, ◌&&◌, Option, none, some, List, [], ◌∷◌, drop, if◌then◌else◌,
  arith, ◌==◌,
}
use ppp.Lcp.Options.{LcpOptions, ppp_chap}
use ppp.Lcp.Nak.{Nak, short_of}
use ppp.Lcp.Nakci.{
  instead_pap, instead_other, next_digest, instead_chap, instead, nak_auth, with_try,
}
use ppp.Lcp.Conceded.{Conceded, suggested, chap_mdtype_d-lt, left_over}

module _ (d k : ℕ) (go wo : LcpOptions) where
  abbrev Fine : LcpOptions → Type 0
  Fine t = Conceded d k go wo t

  instead_pap-Conceded : (t u : LcpOptions) → Fine t → instead_pap go t ≡ some u → Fine u
  unfolding instead_pap
  instead_pap-Conceded t u h e = ground arith

  instead_other-Conceded : (t : LcpOptions) → Fine t → Fine (instead_other go t)
  unfolding instead_other
  instead_other-Conceded t h = ground arith

  next_digest-Conceded : (t : LcpOptions) → Fine t → Fine (next_digest t)
  unfolding next_digest
  next_digest-Conceded t h = ground (arith, left_over t.chap_mdtype d)

  instead_chap-Conceded :
      (c : ℕ) (t u : LcpOptions) → Fine t → instead_chap c go t ≡ some u → Fine u
  unfolding instead_chap
  instead_chap-Conceded c t u h e =
      ground (arith, next_digest-Conceded t h, suggested go.chap_mdtype c d, chap_mdtype_d-lt c)

  instead_chap-on :
      (v : List ℕ) (t u : LcpOptions)
      → Fine t
      → (elim v [ [] ↦ none | cichar ∷ rest ↦ instead_chap cichar go t ]) ≡ some u
      → Fine u
  instead_chap-on [] t u h e = absurd (ground (arith, e))
  instead_chap-on (c ∷ v) t u h e = instead_chap-Conceded c t u h e

  either-Conceded :
      (b : Bool) (x y : Option LcpOptions) (u : LcpOptions)
      → (x ≡ some u → Fine u)
      → (y ≡ some u → Fine u)
      → (if b then x else y) ≡ some u
      → Fine u
  either-Conceded true x y u f g e = f e
  either-Conceded false x y u f g e = g e

  other-Conceded : (t u : LcpOptions) → Fine t → some (instead_other go t) ≡ some u → Fine u
  other-Conceded t u h e = ground (arith, instead_other-Conceded t h)

  instead-Conceded :
      (l : ℕ) (v : List ℕ) (t u : LcpOptions) → Fine t → instead l v go t ≡ some u → Fine u
  unfolding instead
  instead-Conceded l v t u h e =
      let chap_value : Option LcpOptions = elim (drop 2 v) [
        | [] ↦ none
        | cichar ∷ rest ↦ instead_chap cichar go t
      ] in
      either-Conceded (short_of v == 0xc023 && l == 4) (instead_pap go t)
        (if short_of v == ppp_chap && l == 5 then chap_value else some (instead_other go t)) u
        (instead_pap-Conceded t u h)
        (either-Conceded (short_of v == ppp_chap && l == 5) chap_value (some (instead_other go t)) u
          (instead_chap-on (drop 2 v) t u h) (other-Conceded t u h))
        e

  with_try-Conceded :
      (r : Option LcpOptions) (s u : Nak)
      → ((t : LcpOptions) → r ≡ some t → Fine t)
      → with_try r s ≡ some u
      → Fine u.try
  with_try-Conceded none s u f e = absurd (ground (arith, e))
  with_try-Conceded (some t) s u f e = ground (arith, f t refl)

  if-Conceded :
      (b : Bool) (x y : Option Nak) (u : Nak)
      → (x ≡ some u → Fine u.try)
      → (y ≡ some u → Fine u.try)
      → (if b then x else y) ≡ some u
      → Fine u.try
  if-Conceded true x y u f g e = f e
  if-Conceded false x y u f g e = g e

  same-Conceded : (s u : Nak) → Fine s.try → some s ≡ some u → Fine u.try
  same-Conceded s u h e = ground arith

  pub nak_auth-Conceded :
      (s u : Nak) (p : List ℕ) → Fine s.try → nak_auth go s p ≡ some u → Fine u.try
  unfolding nak_auth
  nak_auth-Conceded s u [] h e = same-Conceded s u h e
  nak_auth-Conceded s u (t ∷ []) h e = same-Conceded s u h e
  nak_auth-Conceded s u (t ∷ l ∷ []) h e = same-Conceded s u h e
  nak_auth-Conceded s u (t ∷ l ∷ hi ∷ []) h e = same-Conceded s u h e
  nak_auth-Conceded s u (t ∷ l ∷ hi ∷ lo ∷ p) h e =
      if-Conceded _ _ (some s) u
        (with_try-Conceded (instead l (hi ∷ lo ∷ p) go s.try) _ u
          (λ v. instead-Conceded l (hi ∷ lo ∷ p) s.try v h))
        (same-Conceded s u h) e
