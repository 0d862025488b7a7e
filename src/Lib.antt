-- ===== src/Lib.antt =====
-- The negotiation and authentication core of the PPP daemon, pppd.
--
-- The parts and how they interact. A protocol of pppd (LCP, IPCP, CCP and others) is an instance of
-- one state machine, pppd/fsm.c, which calls the protocol's own functions through a table of
-- callbacks. When LCP is open, PAP (pppd/upap.c) or CHAP (pppd/chap.c) authenticates one end or
-- both, and reports to pppd/auth.c. All of them schedule their retransmissions on one list of
-- callouts, pppd/main.c, and pass their frames to one function, `output`. What is sent goes over a
-- serial line in the framing of modules/ppp_ahdlc.c; while the line is down, pppd/demand.c reads the
-- same framing from a loopback, and keeps the packets that shall bring the line up. The words of
-- pppd's options files are read by pppd/options.c.
--
--   Prelude    what the other modules share: tests on numbers, lists over native numbers, and the
--              integers that counters are compared with
--   Callout    `struct callout`, `ppp_timeout`, `ppp_untimeout`, `calltimeout` and `timeleft` of
--              pppd/main.c (`timeout`, `untimeout`, `calltimeout`, `timeleft`)
--   Fsm        pppd/fsm.c and pppd/fsm.h: Defs the machine, Send what it sends (`fsm_sconfreq`,
--              `fsm_sdata`, `terminate_layer`), Events `fsm_init` to `fsm_close`, `fsm_timeout` and
--              `fsm_protreject`, Input `fsm_input` and the `fsm_r...` functions, Run histories of
--              it, Rfc the table of RFC 1661 as its specification
--   Upap       pppd/upap.c and pppd/upap.h, by the names of the functions without `upap_`
--   Chap       pppd/chap.c and pppd/chap.h, by the names of the functions without `chap_`: Server
--              the end that authenticates, Client the end that is authenticated
--   Lcp        `lcp_cilen`, `lcp_addci`, `lcp_ackci`, `lcp_nakci`, `lcp_rejci` and `lcp_reqci` of
--              pppd/lcp.c, over `lcp_options` of pppd/lcp.h: Options the macros, Request our request
--              and its Ack, Reject the Reject of some of it, Nak and Nakci its Nak, Req and Reqci
--              the peer's request; and Echo `lcp_close` and the echo functions, which run the
--              machine of Fsm
--   Auth       pppd/auth.c: Established `link_established` to `continue_networks` and `link_down`,
--              Reports what PAP, CHAP and EAP report, Networks `np_up`, `np_down`, `np_finished` and
--              the limits of time and traffic, Scripts auth-up and auth-down, Addresses
--              `set_allowed_addrs` and `auth_ip_addr`, Channel `start_link` and
--              `link_terminated`, with a state of their own (`Line`)
--   Hdlc       modules/ppp_ahdlc.c: Fcs the check sequence, Defs `ahdlc_encode` (`encode`),
--              `ahdlc_decode` (`decode`) and the requests of `ahdlc_wput` that set the state
--   Demand     pppd/demand.c: `loop_chars`, `loop_frame`, `active_packet` and `demand_rexmit`
--              (`rexmit`); its reader stands against the writer of Hdlc
--   Words      `getword` of pppd/options.c: Defs its two loops, RoundTrip words in quotes, File the
--              words of a whole file
--
-- How the state corresponds. A component's state is a record, its `World`: the C structure, the
-- number of callouts of the component that are pending (TIMEOUT adds one, UNTIMEOUT takes one off if
-- there is one, and a callout that fires is off the list before its routine runs), the frames passed
-- to `output`, the newest first, and the state of the rest of the program, of a type that is left
-- open. A function of the source is a function on this record; a callback, a digest or a report to
-- pppd/auth.c is a function that is a parameter, and may call the protocol again where the source
-- lets it. What the theorems assume of these parameters stands in their statements. Packets and
-- names are lists of bytes with their lengths; bytes and identifiers wrap where they are stored or
-- sent (`% 256`). Counters that are `int` in the source and are compared with a limit are natural
-- numbers or integers, without overflow.
--
-- Bounds. `calltimeout` is a loop on fuel, and a theorem gives a number of rounds that is enough. The
-- second loop of `getword` is on fuel too, one unit for each byte of the file, and a theorem states
-- that this is enough. All else is structural recursion over packets and lists.
--
-- Not modelled: logging and the printing of packets; the buffers' capacity, but for the receive
-- buffers of the framing; the other functions of pppd/lcp.c, pppd/main.c and pppd/options.c; in
-- modules/ppp_ahdlc.c its locks, the queries of its state and its closing; the other protocols, the
-- devices and the system calls of pppd; in pppd/auth.c the
-- options and the secrets files; the other kernel modules, the plugins and the tools.
pub mod Auth
pub mod Callout
pub mod Chap
pub mod Demand
pub mod Fsm
pub mod Hdlc
pub mod Lcp
pub mod Prelude
pub mod Upap
pub mod Words
