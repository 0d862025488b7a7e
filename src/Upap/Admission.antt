-- ===== src/Upap/Admission.antt =====
-- The only way into the server's open state of pppd/upap.c.
use ppp.Prelude.{
  ℕ, ◌*◌, ◌+◌, ◌-◌, ◌≡◌, ◌⊎◌, inl, inr, refl, ap, Bool, true, false, Bool-cases, Option, none, some,
  List, ◌∷◌, arith, take, ◌==◌,
}
use ppp.Upap.Defs.{
  ClientState, ServerState, World, Auth, authreq, authack, headerlen, set_server, set_client,
}
use ppp.Upap.Ops.{
  sauthreq, authwithpeer, authpeer, lowerup, lowerdown, timeout, reqtimeout, protrej, input,
  rauthreq, rauthreq_at, answer_parsed, rauthack, rauthnak, sresp, dispatch, answer_request,
  parse_request, verdict, conclude,
}
use ppp.Upap.Run.{
  Event, with_peer, peer, up, down, expire, req_expire, reject, receive, elsewhere, fire, fire_req,
  step,
}

abbrev pub is_open : ServerState → Bool
is_open ServerState.open' = true
is_open _ = false

module _ {C : Type 0} where
  abbrev pub Shut : World C → Type 0
  Shut w = is_open w.upap.serverstate ≡ false

-- The reports to auth.c, that of success aside, do not open the server.
pub record NeverOpens {C : Type 0} (auth : Auth C) : Type 0 where
  pub withpeer_fail : (w : World C) → Shut w → Shut (auth.withpeer_fail w)
  pub withpeer_success : (w : World C) → Shut w → Shut (auth.withpeer_success w)
  pub peer_fail : (w : World C) → Shut w → Shut (auth.peer_fail w)

module _ {C : Type 0} (auth : Auth C) where
  -- The credentials in the body of a request satisfy `check_passwd`, and the number is allowed.
  pub record Admits (w : World C) (body : List ℕ) : Type 0 where
    pub listening : w.upap.serverstate ≡ ServerState.listen
    pub user : List ℕ
    pub passwd : List ℕ
    pub parsed : parse_request body ≡ some (user, passwd)
    pub checked : (auth.check_passwd w.client user passwd).0 ≡ authack
    pub numbered : auth.auth_number (auth.check_passwd w.client user passwd).2 ≡ true

  -- The event is an Authenticate-Request whose body admits its sender.
  abbrev pub Enters : World C → Event C → Type 0
  Enters w (receive (code ∷ id ∷ hi ∷ lo ∷ rest)) =
      (code ≡ authreq) × Admits w (take (hi * 256 + lo - headerlen) rest)
  Enters w _ = ⊥

  module _ (laws : NeverOpens auth) where
    verdict-authack :
        (c : C) (user passwd : List ℕ)
        → (verdict auth c user passwd).0 ≡ authack
        → ((auth.check_passwd c user passwd).0 ≡ authack)
          × (auth.auth_number (auth.check_passwd c user passwd).2 ≡ true)
    unfolding verdict
    verdict-authack c user passwd e = ground arith

    conclude-Shut :
        (retcode : ℕ) (user : List ℕ) (w : World C)
        → Shut (conclude auth retcode user w) ⊎ (retcode ≡ authack)
    unfolding conclude
    conclude-Shut retcode user w = elim (Bool-cases (retcode == authack)) [
      | inl e ↦ inr (ground arith)
      | inr e ↦ inl (ground (arith, laws.peer_fail (set_server ServerState.bad_auth w)))
    ]

    answer_request-Shut :
        (id : ℕ) (user passwd : List ℕ) (w : World C)
        → Shut (answer_request auth id user passwd w)
          ⊎ ((verdict auth w.client user passwd).0 ≡ authack)
    unfolding answer_request
    answer_request-Shut id user passwd w = conclude-Shut _ user _

    answer_parsed-Shut :
        (id : ℕ) (body : List ℕ) (w : World C) (r : Option (List ℕ × List ℕ))
        → parse_request body ≡ r
        → w.upap.serverstate ≡ ServerState.listen
        → Shut (answer_parsed auth id r w) ⊎ Admits w body
    unfolding answer_parsed
    answer_parsed-Shut id body w none e s = inl (ap is_open s)
    answer_parsed-Shut id body w (some (user, passwd)) e s =
        elim (answer_request-Shut id user passwd w) [
          | inl shut ↦ inl shut
          | inr good ↦
              let (checked, numbered) = verdict-authack w.client user passwd good in
              inr (record {
                listening = s;
                user = user;
                passwd = passwd;
                parsed = e;
                checked = checked;
                numbered = numbered;
              })
        ]

    rauthreq_at-Shut :
        (s : ServerState) (id : ℕ) (body : List ℕ) (w : World C)
        → w.upap.serverstate ≡ s
        → Shut w
        → Shut (rauthreq_at auth s id body w) ⊎ Admits w body
    unfolding rauthreq_at sresp
    rauthreq_at-Shut ServerState.listen id body w e h =
        answer_parsed-Shut id body w (parse_request body) refl e
    rauthreq_at-Shut ServerState.bad_auth id body w e h = inl h
    rauthreq_at-Shut ServerState.open' id body w e h = inl h
    rauthreq_at-Shut _ id body w e h = inl h

    dispatch-Shut :
        (code id : ℕ) (body : List ℕ) (w : World C)
        → Shut w
        → Shut (dispatch auth code id body w) ⊎ ((code ≡ authreq) × Admits w body)
    unfolding dispatch rauthreq rauthack rauthnak
    dispatch-Shut code id body w h = elim (Bool-cases (code == authreq)) [
      | inl e ↦ elim (rauthreq_at-Shut w.upap.serverstate id body w refl h) [
        | inl shut ↦ inl (rw e shut)
        | inr good ↦ inr (ground arith, good)
      ]
      | inr e ↦ inl (
          ground (
            arith,
            laws.withpeer_success (set_client ClientState.open' w),
            laws.withpeer_fail (set_client ClientState.bad_auth w),
          ))
    ]

    input-Shut :
        (packet : List ℕ) (w : World C)
        → Shut w
        → Shut (input auth packet w) ⊎ Enters w (receive packet)
    unfolding input
    input-Shut (code ∷ id ∷ hi ∷ lo ∷ rest) w h =
        let body = take (hi * 256 + lo - headerlen) rest in
        elim (dispatch-Shut code id body w h) [
          | inl shut ↦ inl (ground arith)
          | inr good ↦ inr good
        ]
    input-Shut _ w h = inl h

    protrej-Shut : (w : World C) → Shut w → Shut (protrej auth w)
    unfolding protrej lowerdown
    protrej-Shut w h = refl

    -- No event opens a server that is not open but a well-formed request, while it listens, whose
    -- user name and password `check_passwd` accepts, with an authorised number; provided that the
    -- reports to auth.c of failures, and of our own success, do not open it.
    pub step-Shut : (e : Event C) (w : World C) → Shut w → Shut (step auth e w) ⊎ Enters w e
    unfolding step
    step-Shut (with_peer user passwd) w h = inl (unfold authwithpeer sauthreq in ground arith)
    step-Shut peer w h = inl (unfold authpeer in ground arith)
    step-Shut up w h = inl (unfold lowerup in ground arith)
    step-Shut down w h = inl (unfold lowerdown in refl)
    step-Shut expire w h = inl (
        unfold fire timeout sauthreq in
        ground (
          arith,
          laws.withpeer_fail (set_client ClientState.bad_auth (record w { timers = w.timers - 1 })),
        ))
    step-Shut req_expire w h = inl (unfold fire_req reqtimeout in ground arith)
    step-Shut reject w h = inl (protrej-Shut w h)
    step-Shut (receive packet) w h = input-Shut packet w h
    step-Shut (elsewhere g) w h = inl h
