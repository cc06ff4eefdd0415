-- ===== src/Gap/Bounded.antt =====
-- A number that does not come is asked for at most twice.
use bdspro_udp_v.Common.{
  List, [], arith, nat_eq, none, string_eq, subst, ℕ, ◌++◌, ◌+◌, ◌∷◌, ◌≡◌, ◌≤◌,
}
use bdspro_udp_v.HashMap
use bdspro_udp_v.HashMap.{
  HashMap, Distinct, get-insert, get-remove, insert-Distinct, remove-Distinct, length-insert_fresh,
  length-remove, remove_absent,
}
use bdspro_udp_v.Udp.Message.{Bytes, Json, Io}
use bdspro_udp_v.Gap.{Receiver, new, Fate, goes, panics, io_error, ◌>>=◌, Sent, turn}
use bdspro_udp_v.Gap.Budget.{Budget, asks, asks-append, Kept, After}
use bdspro_udp_v.Gap.Turns.{turn-Kept}

module _ ⦃json : Json⦄ where
  -- One turn's datagram, clock readings and answers of the socket.
  pub record Packet : Type 0 where
    pub datagram : Bytes
    pub now : ℕ
    pub later : ℕ
    pub ack_answer : Io
    pub answer : ℕ → Io

  -- The main loop on a sequence of datagrams.
  unfoldable pub run : Receiver → List Packet → Fate Sent
  unfolding turn
  run r [] = goes (r, [])
  run r (p ∷ ps) = do
    (r', wire) ← turn r p.datagram p.now p.later p.ack_answer p.answer
    (r'', more) ← run r' ps
    goes (r'', wire ++ more)

  run-Kept :
      (past k : ℕ) (r : Receiver) (ps : List Packet)
      → (HashMap.get k r.received_seqs ≡ none → Budget k r past)
      → After past k (run r ps)
  unfolding run asks
  run-Kept past k r [] h = λ unseen. subst (Budget k r) (omega arith) (h unseen)
  run-Kept past k r (p ∷ ps) h =
      by_turn (turn r p.datagram p.now p.later p.ack_answer p.answer)
        (turn-Kept past k r p.datagram p.now p.later p.ack_answer p.answer h)
        (λ r' wire h'. run-Kept (past + asks k wire) k r' ps h')
    where
      by_rest :
          (wire : List Bytes) (f : Fate Sent)
          → After (past + asks k wire) k f
          → After past k (f >>= λ s. goes (s.0, wire ++ s.1))
      by_rest wire (goes (r'', more)) h' = λ unseen.
          let sum : past + asks k wire + asks k more ≡ past + asks k (wire ++ more) =
            omega (arith, asks-append k wire more) in
          subst (Budget k r'') sum (h' unseen)
      by_rest wire panics h' = tt
      by_rest wire io_error h' = tt

      by_turn :
          (f : Fate Sent)
          → After past k f
          → ((r' : Receiver) (wire : List Bytes)
              → (HashMap.get k r'.received_seqs ≡ none → Budget k r' (past + asks k wire))
              → After (past + asks k wire) k (run r' ps))
          → After past k (f >>= λ s. (run s.0 ps >>= λ more. goes (more.0, s.1 ++ more.1)))
      by_turn (goes (r', wire)) h' later = by_rest wire (run r' ps) (later r' wire h')
      by_turn panics h' later = tt
      by_turn io_error h' later = tt

  -- Over any sequence of datagrams, a number that has not come at its end was asked for at most twice:
  -- the limit is three attempts, and the timeout of a request counts as one.
  pub requests_bounded :
      (k : ℕ) (ps : List Packet) {r : Receiver} {wire : List Bytes}
      → run new ps ≡ goes (r, wire)
      → HashMap.get k r.received_seqs ≡ none
      → asks k wire ≤ 2
  unfolding HashMap.get
  requests_bounded k ps {r} {wire} e unseen =
      let kept : Kept 0 k (r, wire) = subst (After 0 k) e (
        run-Kept 0 k new ps (λ _. record {
          few = omega arith;
          spent = omega arith;
          slack = λ quiet left. omega arith;
        })) in
      let v = kept unseen in omega (arith, v.few, v.spent)
