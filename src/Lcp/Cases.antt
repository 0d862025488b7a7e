-- ===== src/Lcp/Cases.antt =====
-- A rule for the `switch` of `lcp_reqci` of pppd/lcp.c, and one for its loop.
use ppp.Prelude.{
  ℕ, zero, suc, ◌+◌, ◌-◌, ◌||◌, List, [], ◌∷◌, length, take, ltb, ◌==◌, ◌≤◌, ◌≡◌, arith, Bool-cases,
  if-both, inl, inr, length-take,
}
use ppp.Lcp.Options.{LcpOptions}
use ppp.Lcp.Req.{
  Checked, rejects, check_mru, check_asyncmap, check_auth, check_lqr, check_magic,
  check_pcompression, check_accompression, check_mrru, check_ssnhf, check_endpoint,
}
use ppp.Lcp.Reqci.{Policy, Req, check_ci, reject, round_ci, req_all}

-- What holds of every case's result holds of the `switch`.
pub check_ci-cases :
    (P : Checked → Type 0) (c : Policy) (left t l : ℕ) (v : List ℕ) (ho : LcpOptions)
    → P (check_mru c.ao l v ho)
    → P (check_asyncmap c.ao l v ho)
    → P (check_auth c.ao l v ho)
    → P (check_lqr c.ao l v ho)
    → P (check_magic c.ao c.go (c.magic left) l v ho)
    → P (check_pcompression c.ao l ho)
    → P (check_accompression c.ao l ho)
    → P (check_mrru c.ao c.multilink l v ho)
    → P (check_ssnhf c.ao c.multilink l ho)
    → P (check_endpoint c.ao l v ho)
    → P (rejects ho)
    → P (check_ci c left t l v ho)
unfolding check_ci
check_ci-cases P c left t l v ho p1 p2 p3 p4 p5 p7 p8 p17 p18 p19 p = if-both P (t == 1) _ _ p1 (
    if-both P (t == 2) _ _ p2 (
      if-both P (t == 3) _ _ p3 (
        if-both P (t == 4) _ _ p4 (
          if-both P (t == 5) _ _ p5 (
            if-both P (t == 7) _ _ p7 (
              if-both P (t == 8) _ _ p8 (
                if-both P (t == 17) _ _ p17
                  (if-both P (t == 18) _ _ p18 (if-both P (t == 19) _ _ p19 p)))))))))

-- What every round keeps, and the rejection of what is left, the loop keeps. `Inv n s` speaks of
-- `s` with `n` bytes of the packet behind it.
module _ (Inv : ℕ → Req → Type 0) (c : Policy)
    (step : (t l : ℕ) (v : List ℕ) (left n : ℕ) (s : Req)
      → l ≡ 2 + length v
      → Inv (n + (2 + length v)) s
      → Inv n (round_ci c left t l v s))
    (last : (p : List ℕ) (n : ℕ) (s : Req) → Inv (n + length p) s → Inv n (reject p s)) where
  at_count : {n m : ℕ} (s : Req) → n ≡ m → Inv n s → Inv m s
  at_count s e h = rw (← e) h

  keeps_from :
      (passed : ℕ) (p : List ℕ) (n : ℕ) (s : Req)
      → Inv (n + (length p - passed)) s
      → Inv n (req_all c passed p s)
  unfolding req_all
  keeps_from passed [] n s h = at_count s (omega arith) h
  keeps_from (suc passed) (b ∷ p) n s h = keeps_from passed p n s (at_count s (omega arith) h)
  keeps_from zero (b ∷ []) n s h = last (b ∷ []) n s (at_count s (omega arith) h)
  keeps_from zero (t ∷ l ∷ p) n s h =
      let v = take (l - 2) p in
      elim (Bool-cases (ltb l 2 || ltb (length p + 2) l)) [
        | inl bad ↦ rw bad (last (t ∷ l ∷ p) n s (at_count s (omega arith) h))
        | inr good ↦
            let long : length v ≡ l - 2 = ground (arith, length-take (l - 2) p) in
            let fits : l ≤ length p + 2 = ground arith in
            let much : 2 ≤ l = ground arith in
            let behind = n + (length p - (l - 2)) in
            rw good (
              keeps_from (l - 2) p n (round_ci c (length p) t l v s) (
                step t l v (length p) behind s (omega (arith, long, much))
                  (at_count s (omega (arith, long, fits, much)) h)))
      ]

  pub req_all-keeps :
      (n : ℕ) (p : List ℕ) (s : Req) → Inv (n + length p) s → Inv n (req_all c 0 p s)
  req_all-keeps n p s h = keeps_from 0 p n s (at_count s (omega arith) h)
