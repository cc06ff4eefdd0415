-- ===== src/Udp/Network/Moves.antt =====
-- What the network knows of the sender of lib.rs, and what a move of it may change.
use bdspro_udp_v.Common.{
  All, All-append, Bool-cases, List, Option-cases, String, [], arith, inl, inr, nat_eq, none, some,
  string_eq, ℕ, ◌∷◌, ◌≡◌, ◌≤◌, ◌⊎◌,
}
use bdspro_udp_v.HashMap
use bdspro_udp_v.HashMap.{
  HashMap, Distinct, get-insert, get-remove, insert-Distinct, remove-Distinct, length-insert_fresh,
  length-remove, remove_absent, All-remove, All-insert,
}
use bdspro_udp_v.Udp.Sender.{
  is_late, refresh, to_retransmit, refresh_all, encode_all, InFlightMessage, encode, UdpSender,
}
use bdspro_udp_v.Udp.Network.{Fits}
use bdspro_udp_v.Udp.Semaphore.{Semaphore}
use bdspro_udp_v.Udp.Message.{Bytes, Json, data_message}

module _ {S : Type 0} ⦃sem : Semaphore S⦄ ⦃json : Json⦄ where
  -- The datagram carries a text that the sender keeps under its number.
  abbrev pub IsSent : UdpSender S → Bytes → Type 0
  IsSent s datagram =
      (seq : ℕ) × (text : String) × (json.to_vec (data_message seq text) ≡ some datagram)
      × (HashMap.get seq s.sent_messages ≡ some text)

  abbrev pub Agrees : UdpSender S → ℕ × InFlightMessage → Type 0
  Agrees s (seq, msg) = HashMap.get seq s.sent_messages ≡ some msg.text

  pub record SenderInv (s : UdpSender S) : Type 0 where
    pub fits :
        (seq : ℕ) (text : String)
        → HashMap.get seq s.sent_messages ≡ some text
        → Fits (data_message seq text)
    pub below : (k : ℕ) → s.next_seq ≤ k → HashMap.get k s.sent_messages ≡ none
    pub agree : All (Agrees s) s.in_flight

  -- From `s` to `t` the sender hands over only stored texts, forgets none, and takes no message out
  -- of flight but those for which `Confirmed` holds.
  pub record SenderMove (Confirmed : ℕ → Type 0) (s t : UdpSender S) (wire : List Bytes)
      : Type 0 where
    pub inv : SenderInv t
    pub grows :
        (seq : ℕ) (text : String)
        → HashMap.get seq s.sent_messages ≡ some text
        → HashMap.get seq t.sent_messages ≡ some text
    pub sent : All (IsSent t) wire
    pub settled :
        (seq : ℕ) (text : String)
        → HashMap.get seq t.sent_messages ≡ some text
        → HashMap.get seq t.in_flight ≡ none
        → ((HashMap.get seq s.sent_messages ≡ some text) × (HashMap.get seq s.in_flight ≡ none))
          ⊎ Confirmed seq

  pub encode-IsSent :
      (s : UdpSender S) (seq : ℕ) (text : String)
      → HashMap.get seq s.sent_messages ≡ some text
      → All (IsSent s) (encode (data_message seq text))
  unfolding encode
  encode-IsSent s seq text found = elim (Option-cases (json.to_vec (data_message seq text))) [
    | inl e ↦ rw (e, encode) tt
    | inr (encoded, e) ↦ rw (e, encode) ((seq, text, e, found), tt)
  ]

  pub encode_all-IsSent :
      (s : UdpSender S) (timeout now : ℕ) (m : HashMap ℕ InFlightMessage)
      → All (Agrees s) m
      → All (IsSent s) (encode_all (to_retransmit timeout now m))
  unfolding encode_all to_retransmit
  encode_all-IsSent s timeout now [] h = tt
  encode_all-IsSent s timeout now ((seq, msg) ∷ m) h = elim (Bool-cases (is_late timeout now msg)) [
    | inl late ↦ rw late (
        All-append (IsSent s) (encode (data_message seq msg.text)) _
          (encode-IsSent s seq msg.text h.0) (encode_all-IsSent s timeout now m h.1))
    | inr fresh ↦ rw fresh (encode_all-IsSent s timeout now m h.1)
  ]

  pub refresh_all-Agrees :
      (s : UdpSender S) (timeout now : ℕ) (m : HashMap ℕ InFlightMessage)
      → All (Agrees s) m
      → All (Agrees s) (refresh_all timeout now m)
  unfolding refresh_all refresh
  refresh_all-Agrees s timeout now [] h = tt
  refresh_all-Agrees s timeout now ((seq, msg) ∷ m) h =
      (ground arith, refresh_all-Agrees s timeout now m h.1)
