-- ===== src/Fsm/Rfc/Steps.antt =====
-- Every entry point of pppd/fsm.c against the table of RFC 1661.
use ppp.Prelude.{
  ℕ, ◌≡◌, ◌≢◌, refl, ltb, ◌==◌, length, if◌then◌else◌, Bool, true, false, not, ◌&&◌, Option, none,
  some, List, arith, nonpos, is_zero, is_neg, Bool-cases, inl, inr, ◌||◌,
}
use ppp.Fsm.Defs.{starting, World, Callbacks}
use ppp.Fsm.Send.{
  has_flag, opt_passive, opt_restart, opt_silent, headerlen, confreq, confack, confnak, confrej,
  termreq, termack, coderej,
}
use ppp.Fsm.Events.{lowerup, lowerdown, open_layer, close_layer, timeout, protreject}
use ppp.Fsm.Input.{is_down, is_stale, checked_ack, dispatch}
use ppp.Fsm.Rfc.Table.{Layer, Event, table, rca, rcn, rtr, rta, ruc, rxj_plus, rxj_minus}
use ppp.Fsm.Rfc.Laws.{Logs, Follows}
use ppp.Fsm.Rfc.Layers.{
  lowerup-Follows, lowerdown-Follows, open_layer-Follows, close_layer-Follows, timeout_plus-Follows,
  timeout_minus-Follows, protreject-Follows,
}
use ppp.Fsm.Rfc.Packets.{
  answer_code, nak_result, rcr, rconfreq-Follows, rtermreq-Follows, rtermack-Follows,
  rconfack-Follows, rconfnakrej-Follows, rcoderej-Follows, unknown_code-Follows,
}

-- What other layers and the timer call.
pub data Call : Type 0 where
  comes_up goes_down opens expires refused : Call
  closes : List ℕ → Call

abbrev is_none {ℓ} : {A : Type ℓ} → Option A → Bool
is_none none = true
is_none (some a) = false

is_none_sound {ℓ} : {A : Type ℓ} → (o : Option A) → is_none o ≡ true → o ≡ none
is_none_sound none h = refl
is_none_sound (some a) h = absurd (ground (arith, h))

module _ {C : Type 0} (cb : Callbacks C) where
  unfoldable pub call_step : Call → World C → World C
  call_step comes_up w = lowerup cb w
  call_step goes_down w = lowerdown cb w
  call_step opens w = open_layer cb w
  call_step expires w = timeout cb w
  call_step refused w = protreject cb w
  call_step (closes reason) w = close_layer cb reason w

  -- The table's event: an expiry depends on the counter.
  unfoldable pub call_event : Call → World C → Event
  call_event comes_up w = Event.up
  call_event goes_down w = Event.down
  call_event opens w = Event.open_layer
  call_event expires w =
      if nonpos w.fsm.retransmits then Event.timeout_minus else Event.timeout_plus
  call_event refused w = rxj_minus
  call_event (closes reason) w = Event.close_layer

  -- Where the table leaves no choice: no option of the RFC is in use that changes the event's
  -- cells, Terminate-Requests are to be sent at all, and the layer is not closed in `starting`.
  abbrev pub Ordinary : Call → World C → Type 0
  Ordinary comes_up w = has_flag w.fsm opt_silent ≡ false
  Ordinary goes_down w = Unit
  Ordinary opens w = (has_flag w.fsm opt_silent ≡ false) × (has_flag w.fsm opt_restart ≡ false)
  Ordinary expires w = has_flag w.fsm opt_passive ≡ false
  Ordinary refused w = is_zero w.fsm.maxtermtransmits ≡ false
  Ordinary (closes reason) w = (is_zero w.fsm.maxtermtransmits ≡ false) × (w.fsm.state ≢ starting)

module _ {C : Type 0} (cb : Callbacks C) (log : C → List Layer) (laws : Logs cb log) where
  expires-Follows :
      (w : World C)
      → has_flag w.fsm opt_passive ≡ false
      → Follows log w (timeout cb w) (table (call_event cb expires w) w.fsm.state)
  unfolding call_event
  expires-Follows w h = elim (Bool-cases (nonpos w.fsm.retransmits)) [
    | inl e ↦ rw e (timeout_minus-Follows cb log laws w e h)
    | inr e ↦ rw e (timeout_plus-Follows cb log laws w e)
  ]

  -- From every state, `fsm_lowerup`, `fsm_lowerdown`, `fsm_open`, `fsm_close`, `fsm_timeout` and
  -- `fsm_protreject` take the step of the RFC's table for their event (an expiry with or without
  -- transmissions left): its next state, its notices to other layers and the codes of the packets
  -- it sends. The conditions: for Up and Open no `silent` option, for Open no `restart` option,
  -- for an expiry no `passive` option, for Close and the reject a limit of Terminate-Requests that
  -- is not 0, for Close a state that is not `starting`; and the callbacks leave the machine alone
  -- and write the log as their names say.
  pub call_step-Follows :
      (c : Call) (w : World C)
      → Ordinary cb c w
      → Follows log w (call_step cb c w) (table (call_event cb c w) w.fsm.state)
  unfolding call_step call_event
  call_step-Follows comes_up w h = lowerup-Follows cb log laws w h
  call_step-Follows goes_down w h = lowerdown-Follows cb log laws w
  call_step-Follows opens w h = open_layer-Follows cb log laws w h.0 h.1
  call_step-Follows expires w h = expires-Follows w h
  call_step-Follows refused w h = protreject-Follows cb log laws w h
  call_step-Follows (closes reason) w h = close_layer-Follows cb log laws reason w h.0 h.1

  -- The table's event for a packet of each code.
  unfoldable pub packet_event : ℕ → List ℕ → World C → Event
  packet_event code body w =
      if code == confreq
      then rcr (answer_code cb log laws body w)
      else if code == confack
      then rca
      else if code == confnak
      then rcn
      else if code == confrej
      then rcn
      else if code == termreq
      then rtr
      else if code == termack
      then rta
      else if code == coderej
      then rxj_plus
      else ruc

  -- A packet that the machine takes: an Ack, Nak or Reject is the first reply to the last request
  -- and is accepted by its callback, a Code-Reject holds a header, and a code of its own the
  -- protocol has not.
  unfoldable pub is_taken : ℕ → ℕ → List ℕ → World C → Bool
  is_taken code id body w =
      let r = nak_result cb log laws code body w in
      if code == confack
      then not (is_stale id w.fsm) && (checked_ack cb.ackci w.fsm w.client body).0
      else if code == confnak || (code == confrej)
      then not (is_stale id w.fsm) && (not (is_zero r.0) && not (is_neg r.0))
      else if code == coderej
      then not (ltb (length body) headerlen)
      else if code == confreq || (code == termreq || (code == termack))
      then true
      else is_none cb.extcode

  -- In every state but `initial` and `starting`, a packet that `fsm_input` takes makes the step of
  -- the RFC's table for its code: its next state, its notices to other layers and the codes of the
  -- packets that answer it. A Configure-Request's event depends on the code that `reqci` answers
  -- it with. The conditions: an Ack, Nak or Reject is the first reply to the last request and its
  -- callback accepts it, a Code-Reject holds a header, and for an unknown code there is no
  -- `extcode` callback; and the callbacks leave the machine alone and write the log as their
  -- names say.
  pub dispatch-Follows :
      (code id : ℕ) (body packet : List ℕ) (w : World C)
      → is_down w.fsm.state ≡ false
      → is_taken code id body w ≡ true
      → Follows log w
          (dispatch cb code id body packet w)
          (table (packet_event code body w) w.fsm.state)
  unfolding dispatch packet_event is_taken
  dispatch-Follows code id body packet w d t = ground (
    arith,
    rconfreq-Follows cb log laws id body w,
    rconfack-Follows cb log laws id body w,
    rconfnakrej-Follows cb log laws code id body w,
    rtermreq-Follows cb log laws id w,
    rtermack-Follows cb log laws w,
    rcoderej-Follows cb log laws body w,
    unknown_code-Follows cb log laws code id body packet w,
    is_none_sound cb.extcode,
  )
