-- ===== src/Udp/Cli/Lines.antt =====
-- The two first command line programs of external/BDSPro_UDP_Channel and external/BDSPro_UDP_Channal
-- together: the lines that were typed, what the sender keeps, and what the receiver has seen.
use bdspro_udp_v.Common.{
  Bool, List, String, [], ap, arith, eqb_iff, false, get_elem?, get_elem?-append,
  get_elem?-append_left, if◌then◌else◌, length, length-append, nat_eq, none, refl, some, string_eq,
  subst, sym, true, ℕ, ℕ_discrete, ◌++◌, ◌+◌, ◌-◌, ◌<◌, ◌^◌, ◌∙◌, ◌∷◌, ◌≡◌, ◌≢◌, ◌≤◌,
}
use bdspro_udp_v.HashMap
use bdspro_udp_v.HashMap.{
  HashMap, Distinct, get-insert, get-remove, insert-Distinct, remove-Distinct, length-insert_fresh,
  length-remove, remove_absent,
}
use bdspro_udp_v.Udp.Message.{Bytes, Json, Io, ack_message, data_message}
use bdspro_udp_v.Udp.Cli.{
  request_again, is_third, write, record_data, After, goes, ends, LineSender, first_line,
  TestReceiver, nothing_yet, go_on, on_line, on_message,
}

abbrev state_in : {St : Type 0} → St → After St → St
state_in s (goes t wire) = t
state_in s (ends wire) = s

module _ ⦃json : Json⦄ where
  -- The states of the two programs, with the lines that were typed. Any message that the sender has sent
  -- may come to the receiver, again and in any order, while both go on.
  pub data Reach : LineSender → TestReceiver → List String → Type 0 where
    begins : Reach first_line nothing_yet []
    types :
        {s s' : LineSender} {r : TestReceiver} {lines : List String}
        → Reach s r lines
        → (line : String) (answer : Io) {wire : List Bytes} → on_line s line answer ≡ goes s' wire
        → Reach s' r (lines ++ line ∷ [])
    delivers :
        {s : LineSender} {r r' : TestReceiver} {lines : List String}
        → Reach s r lines
        → (seq : ℕ) (text : String) (roll : ℕ) (ack rqst again : Io) {wire : List Bytes}
        → HashMap.get seq s.sent_messages ≡ some text
        → on_message r (data_message seq text) roll ack rqst again ≡ goes r' wire
        → Reach s r' lines

  pub record Inv (s : LineSender) (r : TestReceiver) (lines : List String) : Type 0 where
    pub next : s.seq ≡ length lines + 1
    pub kept :
        (q : ℕ) (text : String)
        → HashMap.get q s.sent_messages ≡ some text
        → (0 < q) × (q ≤ length lines) × (get_elem? lines (q - 1) ≡ some text)
    pub seen :
        (q : ℕ)
        → HashMap.get q r.received_seqs ≢ none
        → (text : String) × (HashMap.get q s.sent_messages ≡ some text)

  begins-Inv : Inv first_line nothing_yet []
  unfolding HashMap.get
  begins-Inv = record {
    next = omega arith;
    kept = λ q text e. absurd (ground arith);
    seen = λ q there. absurd (there refl);
  }

  -- A turn that goes on has the state that the program set before it wrote.
  went :
      {St : Type 0} (s s' : St) (w : List Bytes × Bool) (wire : List Bytes)
      → go_on s w ≡ goes s' wire
      → s ≡ s'
  went s s' (sent, true) wire e = ap (state_in s) e
  went s s' (sent, false) wire e = absurd (ground (arith, e))

  types-Inv :
      (s s' : LineSender) (r : TestReceiver) (lines : List String) (line : String) (answer : Io)
      (wire : List Bytes)
      → length lines + 2 < 2 ^ 64
      → on_line s line answer ≡ goes s' wire
      → Inv s r lines
      → Inv s' r (lines ++ line ∷ [])
  unfolding on_line get_elem?
  types-Inv s s' r lines line answer wire few e v = rw (← went _ s' _ wire e) (record {
    next = omega (arith, v.next, length-append lines (line ∷ []));
    kept = λ q text there. elim (ℕ_discrete s.seq q) [
      | yes same ↦
          let this : some line ≡ some text =
            ground (arith, eqb_iff s.seq q, get-insert s.seq q line s.sent_messages, there) in
          let place : length lines + 0 ≡ q - 1 = omega (arith, v.next) in
          (
            omega (arith, v.next),
            omega (arith, v.next, length-append lines (line ∷ [])),
            subst (λ i. get_elem? (lines ++ line ∷ []) i ≡ some text) place
                (get_elem?-append lines (line ∷ []) 0 ∙ this),
          )
      | no other ↦
          let (above, below, is) =
            v.kept q text
              (ground (arith, eqb_iff s.seq q, get-insert s.seq q line s.sent_messages, there)) in
          (
            above,
            omega (arith, length-append lines (line ∷ [])),
            get_elem?-append_left lines (line ∷ []) (q - 1) (omega arith) ∙ is,
          )
    ];
    seen = λ q there. elim (ℕ_discrete s.seq q) [
      | yes same ↦ (line, ground (arith, eqb_iff s.seq q, get-insert s.seq q line s.sent_messages))
      | no other ↦
          let (text, is) = v.seen q there in
          (text, ground (arith, eqb_iff s.seq q, get-insert s.seq q line s.sent_messages, is))
    ];
  })

  stays :
      (r r1 : TestReceiver) (w again : List Bytes × Bool) (third : Bool)
      → state_in r1 (
          if w.1
          then if third then go_on r1 (w.0 ++ again.0, again.1) else goes r1 w.0
          else ends w.0)
        ≡ r1
  stays r r1 (acked, false) again third = refl
  stays r r1 (acked, true) again false = refl
  stays r r1 (acked, true) (more, false) true = refl
  stays r r1 (acked, true) (more, true) true = refl

  took :
      (r r' : TestReceiver) (seq : ℕ) (text : String) (roll : ℕ) (ack rqst again : Io)
      (wire : List Bytes)
      → on_message r (data_message seq text) roll ack rqst again ≡ goes r' wire
      → record_data r seq ≡ r'
  unfolding on_message
  took r r' seq text roll ack rqst again wire e =
      let r1 = record_data r seq in
      sym (
        stays r r1 (write (ack_message seq) ack) (request_again r1 seq roll rqst again)
          (is_third r1))
      ∙ ap (state_in r1) e

  pub delivers-Inv :
      (s : LineSender) (r : TestReceiver) (lines : List String) (seq : ℕ) (text : String)
      → HashMap.get seq s.sent_messages ≡ some text
      → Inv s r lines
      → Inv s (record_data r seq) lines
  unfolding record_data
  delivers-Inv s r lines seq text sent v = record {
    next = v.next;
    kept = v.kept;
    seen = λ q there. elim (ℕ_discrete seq q) [
      | yes same ↦ (text, rw (← same) sent)
      | no other ↦
          v.seen q (λ gone.
            there (ground (arith, eqb_iff seq q, get-insert seq q tt r.received_seqs, gone)))
    ];
  }

  pub Reach-Inv :
      {s : LineSender} {r : TestReceiver} {lines : List String}
      → Reach s r lines
      → length lines + 1 < 2 ^ 64
      → Inv s r lines
  Reach-Inv begins few = begins-Inv
  Reach-Inv (types {s} {s'} {r} {lines} reached line answer {wire} e) few =
      let longer = length-append lines (line ∷ []) in
      types-Inv s s' r lines line answer wire (omega arith) e (Reach-Inv reached (omega arith))
  Reach-Inv (delivers {s} {r} {r'} {lines} reached seq text roll ack rqst again {wire} sent e) few =
      subst (λ r1. Inv s r1 lines) (took r r' seq text roll ack rqst again wire e)
        (delivers-Inv s r lines seq text sent (Reach-Inv reached few))
