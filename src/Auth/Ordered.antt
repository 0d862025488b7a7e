-- ===== src/Auth/Ordered.antt =====
-- pppd/auth.c: the order in which the channel is called.
use ppp.Prelude.{◌≡◌, Bool, true, false, ◌||◌, List, [], ◌∷◌}
use ppp.Auth.Defs.{Phase, initialize, dormant, holdoff, is_dead, is_master}
use ppp.Auth.Channel.{
  ChannelCall, connect, establish_ppp, disestablish_ppp, disconnect_channel, cleanup, Line, Channel,
  start_link, link_terminated,
}

-- Where the calls have led: the device is closed, or open, or speaks PPP, or has to be cleaned up;
-- `wrong` for a call that does not fit.
pub data Place : Type 0 where
  closed opened speaking used wrong : Place

-- One call. A device that could not be opened is cleaned up at once, and one that could not be made
-- to speak PPP is disconnected.
abbrev pub move : ChannelCall → Place → Place
move connect closed = opened
move establish_ppp opened = speaking
move disestablish_ppp speaking = opened
move disconnect_channel opened = used
move disconnect_channel speaking = used
move cleanup opened = closed
move cleanup used = closed
move _ _ = wrong

abbrev pub place : List ChannelCall → Place
place [] = closed
place (x ∷ calls) = move x (place calls)

-- No link has been started, in the phases in which the loop of main.c waits for one.
abbrev pub is_waiting : Phase → Bool
is_waiting initialize = true
is_waiting dormant = true
is_waiting holdoff = true
is_waiting _ = false

abbrev pub has_ended : Phase → Bool
has_ended p = (is_dead p || is_master p) || is_waiting p

module _ {C : Type 0} where
  -- The channel's calls are untouched, and the link goes on if it did, with its two descriptors, and
  -- not if it did not.
  pub record SameLine (w v : Line C) : Type 0 where
    pub calls : v.calls ≡ w.calls
    pub devfd : has_ended w.phase ≡ false → v.devfd ≡ w.devfd
    pub fd_ppp : has_ended w.phase ≡ false → v.fd_ppp ≡ w.fd_ppp
    pub phase : has_ended v.phase ≡ has_ended w.phase

  -- The link is down and the channel closed, or the link is there and the channel speaks PPP.
  pub record IsInPlace (w : Line C) : Type 0 where
    pub down : has_ended w.phase ≡ true → place w.calls ≡ closed
    pub up :
        has_ended w.phase ≡ false
        → (place w.calls ≡ speaking) × (w.devfd ≡ true) × (w.fd_ppp ≡ true)

-- The channel has the two functions that it may lack, LCP does not call it, and the link is no part
-- of a bundle.
pub record Plain {C : Type 0} (ch : Channel C) : Type 0 where
  pub has_disconnect : ch.has_disconnect ≡ true
  pub has_cleanup : ch.has_cleanup ≡ true
  pub lowerup : (w : Line C) → SameLine w (ch.lcp_lowerup w)
  pub lowerdown : (w : Line C) → SameLine w (ch.lcp_lowerdown w)
  pub alone : (c : C) → ch.mp_on c ≡ false

-- A link is started where there is none, a link that was started is terminated, ended or not, or
-- something else happens.
module _ {C : Type 0} (ch : Channel C) where
  pub data LineStep (w : Line C) : Line C → Type 0 where
    starts : has_ended w.phase ≡ true → LineStep w (start_link ch w)
    terminates : is_waiting w.phase ≡ false → LineStep w (link_terminated ch w)
    other : {v : Line C} → SameLine w v → LineStep w v

  pub data LineReach (w : Line C) : Line C → Type 0 where
    at_start : LineReach w w
    then_step : {v u : Line C} → LineReach w v → LineStep v u → LineReach w u
