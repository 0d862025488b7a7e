-- ===== src/Auth/LineTests.antt =====
-- A channel whose first link cannot speak PPP, and the theorem on the order of its calls.
use ppp.Prelude.{ℕ, ◌+◌, ◌≡◌, refl, true, false, not, [], ◌∷◌, ◌==◌}
use ppp.Auth.Defs.{dead, initialize}
use ppp.Auth.Channel.{
  connect, establish_ppp, disestablish_ppp, disconnect_channel, cleanup, Line, Channel, start_link,
  link_terminated,
}

-- The state of the rest counts the changes of phase; the first attempt fails at PPP.
abbrev channel : Channel ℕ
channel = record {
  connects = λ c. true;
  establishes = λ c. not (c == 1);
  has_disconnect = true;
  has_cleanup = true;
  mp_on = λ c. false;
  mp_master = λ c. false;
  bundle_terminating = λ c. false;
  mp_exit_bundle = λ c. c;
  mp_bundle_terminated = λ w. w;
  lcp_lowerup = λ w. w;
  lcp_lowerdown = λ w. w;
  new_phase_hook = λ p c. c + 1;
}

abbrev idle : Line ℕ
idle = record {
  phase = initialize;
  status = 0;
  hungup = false;
  devfd = false;
  fd_ppp = false;
  calls = [];
  client = 0;
}

abbrev twice : Line ℕ
twice = link_terminated channel (start_link channel (start_link channel idle))

calls_of_two :
    twice.calls
    ≡ cleanup ∷ disconnect_channel ∷ disestablish_ppp ∷ establish_ppp ∷ connect ∷ cleanup
      ∷ disconnect_channel ∷ establish_ppp ∷ connect ∷ []
unfolding link_terminated start_link
calls_of_two = refl

first_ends : (start_link channel idle).phase ≡ dead
unfolding start_link
first_ends = refl
