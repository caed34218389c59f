-- ===== src/Telnet/Options/Quiet.antt =====
-- negotiate.go: what a table entry can become, and when an endpoint answers.
use secure_crt.Base.{
  ℕ, ◌≡◌, ◌≢◌, ◌⊎◌, Bool, true, false, not, ◌&&◌, ◌||◌, List, [], ◌∷◌, arith, ◌==◌,
}
use secure_crt.Telnet.Protocol.{will, do_}
use secure_crt.Telnet.Options.{
  Options, state_want_no, receive, new_options, offer_local, ask_remote, supported_local,
  supported_remote,
}

-- What an endpoint does to its tables: an offer, a request, or a command received.
pub data Event : Type 0 where
  offers asks : ℕ → Event
  receives : ℕ → ℕ → Event

pub handle : Options → Event → Options
handle o (offers opt) = (offer_local o opt).0
handle o (asks opt) = (ask_remote o opt).0
handle o (receives command opt) = (receive o command opt).0

pub run : Options → List Event → Options
unfolding handle
run o [] = o
run o (e ∷ es) = run (handle o e) es

-- No disable is in flight, in either direction, for any option.
pub record NoDisable (o : Options) : Type 0 where
  pub us : (opt : ℕ) → o.us opt ≢ state_want_no
  pub him : (opt : ℕ) → o.him opt ≢ state_want_no

handle-NoDisable : (o : Options) (e : Event) → NoDisable o → NoDisable (handle o e)
unfolding handle offer_local ask_remote receive
handle-NoDisable o (offers opt) h = record {
  us = λ j. ground (arith, h.us j);
  him = λ j. ground (arith, h.him j);
}
handle-NoDisable o (asks opt) h = record {
  us = λ j. ground (arith, h.us j);
  him = λ j. ground (arith, h.him j);
}
handle-NoDisable o (receives command opt) h = record {
  us = λ j. ground (arith, h.us j, h.us opt);
  him = λ j. ground (arith, h.him j, h.him opt);
}

run_from-NoDisable : (o : Options) (es : List Event) → NoDisable o → NoDisable (run o es)
unfolding run
run_from-NoDisable o [] h = h
run_from-NoDisable o (e ∷ es) h = run_from-NoDisable (handle o e) es (handle-NoDisable o e h)

-- `stateWantNo` is never entered: whatever an endpoint offers, asks and receives, in any order, no
-- option is ever waiting for a disable.
pub run-NoDisable : (es : List Event) → NoDisable (run new_options es)
unfolding new_options
run-NoDisable es =
    run_from-NoDisable new_options es (record { us = λ opt e. cc; him = λ opt e. cc })

-- An offer of, or a request for, an option that this end does not support.
abbrev pub refused : ℕ → ℕ → Bool
refused command opt =
    (command == will && not (supported_remote opt)) || (command == do_ && not (supported_local opt))

module _ (o : Options) (h : NoDisable o) (command opt : ℕ) where
  repeated-send :
      ((receive (receive o command opt).0 command opt).1.send ≡ false)
      ⊎ (refused command opt ≡ true)
  unfolding receive
  repeated-send = ground (arith, h.us opt, h.him opt)

  repeated-us :
      (j : ℕ)
      → (receive (receive o command opt).0 command opt).0.us j ≡ (receive o command opt).0.us j
  unfolding receive
  repeated-us j = ground (arith, h.us opt, h.him opt)

  repeated-him :
      (j : ℕ)
      → (receive (receive o command opt).0 command opt).0.him j ≡ (receive o command opt).0.him j
  unfolding receive
  repeated-him j = ground (arith, h.us opt, h.him opt)

-- In any state that an endpoint can reach, the second of two equal commands in a row is answered
-- only if it offers or asks for an option that is not supported; and a repetition changes neither
-- table.
pub receive_repeated :
    (es : List Event) (command opt : ℕ)
    → let o = (receive (run new_options es) command opt).0 in
      (((receive o command opt).1.send ≡ false) ⊎ (refused command opt ≡ true))
      × ((j : ℕ)
          → ((receive o command opt).0.us j ≡ o.us j) × ((receive o command opt).0.him j ≡ o.him j))
receive_repeated es command opt =
    let o = run new_options es in
    let h = run-NoDisable es in
    (
      repeated-send o h command opt,
      λ j. (repeated-us o h command opt j, repeated-him o h command opt j),
    )
