-- ===== src/Udp/Auto/Numbered.antt =====
-- The numbers in the texts and the sequence numbers of a run.
use bdspro_udp_v.Common.{
  Bool-cases, List, String, [], ap, arith, if◌then◌else◌, inl, inr, leb, length, nat_eq, refl,
  string_eq, suc, zero, ℕ, ◌++◌, ◌+◌, ◌<◌, ◌^◌, ◌∙◌, ◌∷◌, ◌≡◌, ◌≤◌,
}
use bdspro_udp_v.Udp.Message.{Json, Io, Result, ok, err, u64}
use bdspro_udp_v.Udp.Semaphore.{Semaphore}
use bdspro_udp_v.Udp.Sender.{UdpSender, send_message_auto_seq}
use bdspro_udp_v.Udp.Sender.Cases.{send_message_cases, transmit_cases}
use bdspro_udp_v.Udp.Auto.{Args, total_duration, AutoSender, Tick, count, send, loop}

-- The ticks before the first that comes too late.
abbrev pub in_time : Args → List Tick → ℕ
in_time args [] = 0
in_time args (t ∷ ts) = if leb (total_duration args) t.elapsed then 0 else suc (in_time args ts)

abbrev pub texts : List (ℕ × String) → List String
texts [] = []
texts ((seq, text) ∷ log) = text ∷ texts log

-- The sequence numbers rise from a first one, and are below a last one.
abbrev pub Rising : ℕ → List (ℕ × String) → ℕ → Type 0
Rising first [] last = first ≤ last
Rising first ((seq, text) ∷ log) last = (first ≤ seq) × Rising (seq + 1) log last

Rising-le :
    (k first last : ℕ) (log : List (ℕ × String))
    → k ≤ first
    → Rising first log last
    → Rising k log last
Rising-le k first last [] less rises = omega arith
Rising-le k first last ((seq, text) ∷ log) less (above, rises) = (omega arith, rises)

Rising-append :
    (a b c : ℕ) (l m : List (ℕ × String)) → Rising a l b → Rising b m c → Rising a (l ++ m) c
Rising-append a b c [] m first later = Rising-le a b c m first later
Rising-append a b c ((seq, text) ∷ l) m (above, first) later =
    (above, Rising-append (seq + 1) b c l m first later)

texts-append : (l m : List (ℕ × String)) → texts (l ++ m) ≡ texts l ++ texts m
texts-append [] m = refl
texts-append ((seq, text) ∷ l) m = ap (◌∷◌ text) (texts-append l m)

result_number :
    {n q : ℕ} (r : Result (Unit {0})) → elim r [ err e ↦ err e | ok _ ↦ ok n ] ≡ ok q → q ≡ n
result_number (ok _) e = ground (arith, e)
result_number (err f) e = absurd (ground (arith, e))

module _ (format : String → ℕ → String) where
  -- `n` texts with the numbers after `k`.
  abbrev pub numbered : String → ℕ → ℕ → List String
  numbered message k zero = []
  numbered message k (suc n) = format message (k + 1) ∷ numbered message (k + 1) n

  numbered-append :
      (message : String) (k i j k' n : ℕ)
      → k' ≡ k + i
      → n ≡ i + j
      → numbered message k i ++ numbered message k' j ≡ numbered message k n
  numbered-append message k zero j k' n e f =
      let same : k' ≡ k = omega arith in let all : n ≡ j = omega arith in rw (same, all) refl
  numbered-append message k (suc i) j k' zero e f = absurd (omega arith)
  numbered-append message k (suc i) j k' (suc n) e f =
      ap (◌∷◌ (format message (k + 1)))
        (numbered-append message (k + 1) i j k' n (omega arith) (omega arith))

  module _ {S : Type 0} ⦃sem : Semaphore S⦄ ⦃json : Json⦄ where
    pub record Run (args : Args) (a : AutoSender S) (ticks : ℕ)
        (b : AutoSender S × List (ℕ × String)) : Type 0 where
      pub sent : ℕ
      pub more : b.0.packets_sent ≡ a.packets_sent + sent
      pub counted :
          b.0.packets_sent + b.0.packets_failed ≡ a.packets_sent + a.packets_failed + ticks
      pub texts_are : texts b.1 ≡ numbered args.message a.packets_sent sent
      pub next : b.0.sender.next_seq ≡ a.sender.next_seq + ticks
      pub rising : Rising a.sender.next_seq b.1 b.0.sender.next_seq

    -- One message, by its result.
    counted-Run :
        (args : Args) (a : AutoSender S) (sender : UdpSender S) (r : Result ℕ)
        → a.packets_sent + a.packets_failed + 1 < 2 ^ 64
        → sender.next_seq ≡ a.sender.next_seq + 1
        → ((q : ℕ) → r ≡ ok q → q ≡ a.sender.next_seq)
        → Run args a 1 (count a (format args.message (a.packets_sent + 1)) sender r)
    unfolding count
    counted-Run args a sender (ok q) few next number = record {
      sent = 1;
      more = omega arith;
      counted = omega arith;
      texts_are = refl;
      next = next;
      rising = (omega (arith, number q refl), omega (arith, number q refl));
    }
    counted-Run args a sender (err e) few next number = record {
      sent = 0;
      more = omega arith;
      counted = omega arith;
      texts_are = refl;
      next = next;
      rising = omega arith;
    }

    next_seq-auto :
        (s : UdpSender S) (text : String) (now : ℕ) (answer : Io)
        → s.next_seq + 1 < 2 ^ 64
        → (send_message_auto_seq s text now answer).state.next_seq ≡ s.next_seq + 1
    unfolding send_message_auto_seq
    next_seq-auto s text now answer room =
        send_message_cases (λ sent. sent.state.next_seq ≡ s.next_seq + 1)
          (record s { next_seq = u64 (s.next_seq + 1) }) s.next_seq text now answer (omega arith)
          (λ window _.
            transmit_cases (λ sent. sent.state.next_seq ≡ s.next_seq + 1) _ s.next_seq text answer
              (omega arith) (λ _ _. omega arith) (λ _ _. omega arith))

    sent-Run :
        (args : Args) (a : AutoSender S) (t : Tick)
        → a.packets_sent + a.packets_failed + 1 < 2 ^ 64
        → a.sender.next_seq + 1 < 2 ^ 64
        → Run args a 1 (send format args a t)
    unfolding send send_message_auto_seq
    sent-Run args a t few room =
        let text = format args.message (a.packets_sent + 1) in
        let sent = send_message_auto_seq a.sender text t.now t.answer in
        counted-Run args a sent.state sent.result few
          (next_seq-auto a.sender text t.now t.answer room) (λ q e. result_number _ e)

    empty-Run : (args : Args) (a : AutoSender S) → Run args a 0 (a, [])
    empty-Run args a = record {
      sent = 0;
      more = omega arith;
      counted = omega arith;
      texts_are = refl;
      next = omega arith;
      rising = omega arith;
    }

    join-Run :
        (args : Args) (a : AutoSender S) (n : ℕ) (b c : AutoSender S × List (ℕ × String))
        → Run args a 1 b
        → Run args b.0 n c
        → Run args a (suc n) (c.0, b.1 ++ c.1)
    join-Run args a n b c first later = record {
      sent = first.sent + later.sent;
      more = omega (arith, first.more, later.more);
      counted = omega (arith, first.counted, later.counted);
      texts_are =
          texts-append b.1 c.1
          ∙ rw (first.texts_are, later.texts_are)
              (numbered-append args.message a.packets_sent first.sent later.sent b.0.packets_sent
                (first.sent + later.sent) first.more refl);
      next = omega (arith, first.next, later.next);
      rising =
          Rising-append a.sender.next_seq b.0.sender.next_seq c.0.sender.next_seq b.1 c.1
            first.rising later.rising;
    }

    -- Of a run of ticks, with fewer than 2^64 messages and sequence numbers in all, as many are counted as
    -- sent or failed as come in time; the texts of those that were sent have the numbers 1, 2, 3, and
    -- so on, without a gap, after those of earlier ones; each tick takes a sequence number, and
    -- those of the messages that were sent rise.
    pub loop-Run :
        (args : Args) (a : AutoSender S) (ts : List Tick)
        → a.packets_sent + a.packets_failed + length ts < 2 ^ 64
        → a.sender.next_seq + length ts < 2 ^ 64
        → Run args a (in_time args ts) (loop format args a ts)
    unfolding loop
    loop-Run args a [] few room = empty-Run args a
    loop-Run args a (t ∷ ts) few room = elim (Bool-cases (leb (total_duration args) t.elapsed)) [
      | inl late ↦ rw late (empty-Run args a)
      | inr early ↦
          let first = sent-Run args a t (omega arith) (omega arith) in
          rw early (
            join-Run args a (in_time args ts) (send format args a t) _ first (
              loop-Run args (send format args a t).0 ts (omega (arith, first.counted))
                (omega (arith, first.next))))
    ]
