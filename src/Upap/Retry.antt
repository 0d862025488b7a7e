-- ===== src/Upap/Retry.antt =====
-- How the client of pppd/upap.c gives up, and which callouts it leaves behind.
use ppp.Prelude.{
  length-append, ◌/◌, ◌%◌, ◌++◌, ◌∷◌, ◌∙◌, ap, refl, ℕ, zero, suc, pos, ◌+◌, ◌-◌, ◌≡◌, ◌<◌, true,
  List, [], length, arith,
}
use ppp.Upap.Defs.{ClientState, World, Auth, set_client}
use ppp.Upap.Ops.{is_authreq, sauthreq, timeout, lowerup, lowerdown, authwithpeer, rauthack}
use ppp.Upap.Run.{fire, expiries}

-- An Authenticate-Request: address, control, protocol, code 1, its id, its length, and the name and
-- the password with their lengths.
abbrev pub request_frame : ℕ → List ℕ → List ℕ → List ℕ
request_frame id user passwd =
    let n = length user + length passwd + 6 in
    0xff
    ∷ 0x03
    ∷ 0xc0
    ∷ 0x23
    ∷ 1
    ∷ id
    ∷ (n / 256 % 256)
    ∷ (n % 256)
    ∷ (length user % 256)
    ∷ (user ++ ((length passwd % 256) ∷ passwd))

-- The frames `sent`, and behind them in time `n` requests under the ids that follow `id`.
unfoldable pub with_requests : ℕ → ℕ → List ℕ → List ℕ → List (List ℕ) → List (List ℕ)
with_requests zero id user passwd sent = sent
with_requests (suc n) id user passwd sent =
    let next = (id + 1) % 256 in
    with_requests n next user passwd (request_frame next user passwd ∷ sent)

module _ {C : Type 0} (auth : Auth C) where
  fire_again :
      (n m : ℕ) (w : World C)
      → is_authreq w.upap.clientstate ≡ true
      → 0 < w.timers
      → w.upap.maxtransmits ≡ pos m
      → w.upap.transmits + suc n ≡ m
      → (is_authreq (fire auth w).upap.clientstate ≡ true)
        × (0 < (fire auth w).timers)
        × ((fire auth w).upap.maxtransmits ≡ pos m)
        × ((fire auth w).upap.transmits + n ≡ m)
        × ((fire auth w).sent
            ≡ request_frame ((w.upap.id + 1) % 256) w.upap.user w.upap.passwd ∷ w.sent)
        × ((fire auth w).upap.id ≡ (w.upap.id + 1) % 256)
        × ((fire auth w).upap.user ≡ w.upap.user)
        × ((fire auth w).upap.passwd ≡ w.upap.passwd)
  unfolding fire timeout sauthreq
  fire_again n m w a t e k =
      let u = w.upap in ground (arith, length-append u.user ((length u.passwd % 256) ∷ u.passwd))

  fire_last :
      (m : ℕ) (w : World C)
      → is_authreq w.upap.clientstate ≡ true
      → 0 < w.timers
      → w.upap.maxtransmits ≡ pos m
      → w.upap.transmits + 0 ≡ m
      → fire auth w
        ≡ auth.withpeer_fail (set_client ClientState.bad_auth (record w { timers = w.timers - 1 }))
  unfolding fire timeout
  fire_last m w a t e k = ground arith

  expiries_last : (n : ℕ) (w : World C) → expiries auth (suc n) w ≡ fire auth (expiries auth n w)
  unfolding expiries
  expiries_last zero w = refl
  expiries_last (suc n) w = expiries_last n (fire auth w)

  asks_again :
      (n m : ℕ) (w : World C)
      → is_authreq w.upap.clientstate ≡ true
      → 0 < w.timers
      → w.upap.maxtransmits ≡ pos m
      → w.upap.transmits + n ≡ m
      → let v = expiries auth n w in
        (((is_authreq v.upap.clientstate ≡ true) × (0 < v.timers))
          × ((v.upap.maxtransmits ≡ pos m) × (v.upap.transmits + 0 ≡ m)))
        × (v.sent ≡ with_requests n w.upap.id w.upap.user w.upap.passwd w.sent)
  unfolding expiries with_requests
  asks_again zero m w a t e k = (((a, t), (e, k)), refl)
  asks_again (suc n) m w a t e k =
      let (a', t', e', k', l, id, user, passwd) = fire_again n m w a t e k in
      let (fine, sent) = asks_again n m (fire auth w) a' t' e' k' in
      (
        fine,
        sent
            ∙ ap
                (λ i.
                  with_requests n i (fire auth w).upap.user (fire auth w).upap.passwd
                    (fire auth w).sent)
                id
            ∙ ap
                (λ u.
                  with_requests n ((w.upap.id + 1) % 256) u (fire auth w).upap.passwd
                    (fire auth w).sent)
                user
            ∙ ap (λ s. with_requests n ((w.upap.id + 1) % 256) w.upap.user s (fire auth w).sent)
                passwd
            ∙ ap (with_requests n ((w.upap.id + 1) % 256) w.upap.user w.upap.passwd) l,
      )

  -- A client that has asked and hears nothing asks again until `us_maxtransmits` requests have been
  -- made, once at each expiry of its callout: after `n` expiries, `n` more Authenticate-Requests
  -- with the same name and password are sent, their ids counting up, and nothing else, and it still
  -- waits. The expiry after that only sets the state to `bad_auth` and reports the failure.
  pub requests_give_up :
      (n m : ℕ) (w : World C)
      → is_authreq w.upap.clientstate ≡ true
      → 0 < w.timers
      → w.upap.maxtransmits ≡ pos m
      → w.upap.transmits + n ≡ m
      → let v = expiries auth n w in
        (is_authreq v.upap.clientstate ≡ true)
        × (0 < v.timers)
        × (v.sent ≡ with_requests n w.upap.id w.upap.user w.upap.passwd w.sent)
        × (expiries auth (suc n) w
            ≡ auth.withpeer_fail
                (set_client ClientState.bad_auth (record v { timers = v.timers - 1 })))
  requests_give_up n m w a t e k =
      let (((b, s), (x, y)), sent) = asks_again n m w a t e k in
      (b, s, sent, rw (expiries_last n w) (fire_last m (expiries auth n w) b s x y))

  -- An Ack leaves the callout of the request behind, and so does the loss of the link after it: a
  -- client that is then started again has two callouts for its one request.
  pub stale_timer :
      (user passwd : List ℕ) (w : World C)
      → ((v : World C)
          → ((auth.withpeer_success v).upap ≡ v.upap)
            × ((auth.withpeer_success v).timers ≡ v.timers))
      → is_authreq w.upap.clientstate ≡ true
      → w.timers ≡ 1
      → let again = lowerup (authwithpeer user passwd (lowerdown (rauthack auth [] w))) in
        (is_authreq again.upap.clientstate ≡ true) × (again.timers ≡ 2) × (again.upap.transmits ≡ 1)
  unfolding rauthack lowerdown authwithpeer lowerup sauthreq
  stale_timer user passwd w quiet a t = ground (arith, quiet (set_client ClientState.open' w))
