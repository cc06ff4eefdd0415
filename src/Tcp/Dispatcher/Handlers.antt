-- ===== src/Tcp/Dispatcher/Handlers.antt =====
-- One handler for each target.
use bdspro_udp_v.Common.{
  All, All-Mem, All-append, All-mono, Bool, Bool-cases, List, Mem, Option, Option-cases, [], arith,
  eq_iff, false, inl, inr, nat_eq, none, some, string_eq, subst, true, ◌++◌, ◌==◌, ◌∷◌, ◌≡◌,
}
use bdspro_udp_v.HashMap
use bdspro_udp_v.HashMap.{
  HashMap, Distinct, get-insert, get-remove, insert-Distinct, remove-Distinct, length-insert_fresh,
  length-remove, remove_absent,
}
use bdspro_udp_v.Tcp.Protocol.{ConnectionIdentifier}
use bdspro_udp_v.Tcp.Dispatcher.{
  Controller, RegisterChannel, Forward, Fate, goes, stops, fails, Ran, cut, ran, on_cancel, forward,
  make, register, Turn, dispatch,
}

-- The dispatcher's table, with everything that was forwarded, the newest first.
pub data Reach : HashMap ConnectionIdentifier Controller → List Forward → Type 0 where
  start : Reach [] []
  next :
      {connections : HashMap ConnectionIdentifier Controller} {log : List Forward}
      → Reach connections log
      → (t : Turn) {after : HashMap ConnectionIdentifier Controller} {sent : List Forward}
      → dispatch connections t ≡ goes after sent
      → Reach after (sent ++ log)

-- The registration went to the handler that the table has for its target.
abbrev pub ByTable : HashMap ConnectionIdentifier Controller → Forward → Type 0
ByTable connections f = HashMap.get f.registration.target_connection connections ≡ some f.controller

-- A turn keeps the handlers of the table, and forwards by the table that it leaves; when it stops it
-- cancels all of them.
abbrev Good : HashMap ConnectionIdentifier Controller → Fate → Type 0
Good connections (goes after sent) =
    ((target : ConnectionIdentifier) (c : Controller)
      → HashMap.get target connections ≡ some c
      → HashMap.get target after ≡ some c)
    × All (ByTable after) sent
Good connections (stops tokens) =
    (target : ConnectionIdentifier) (c : Controller)
    → HashMap.get target connections ≡ some c
    → Mem c tokens
Good connections fails = Unit

mem-on_cancel :
    (connections : HashMap ConnectionIdentifier Controller) (target : ConnectionIdentifier)
    (c : Controller)
    → HashMap.get target connections ≡ some c
    → Mem c (on_cancel connections)
unfolding on_cancel HashMap.get
mem-on_cancel [] target c e = absurd (ground arith)
mem-on_cancel ((other, d) ∷ connections) target c e = elim (Bool-cases (other == target)) [
  | inl same ↦ inl (ground (arith, rw same at e))
  | inr differs ↦ inr (mem-on_cancel connections target c (rw differs at e))
]

forward-Good :
    (connections : HashMap ConnectionIdentifier Controller) (message : RegisterChannel)
    (sent : Ran Bool)
    → Good connections (forward connections message sent)
unfolding forward
forward-Good connections message cut = λ target c e. mem-on_cancel connections target c e
forward-Good connections message (ran false) = tt
forward-Good connections message (ran true) =
    elim (Option-cases (HashMap.get message.target_connection connections)) [
      | inl e ↦ rw (forward, e) tt
      | inr (controller, e) ↦ rw (forward, e) (λ target c h. h, (e, tt))
    ]

-- What is good after a handler was added is good before.
added-Good :
    (connections : HashMap ConnectionIdentifier Controller) (target : ConnectionIdentifier)
    (c : Controller) (fate : Fate)
    → HashMap.get target connections ≡ none
    → Good (HashMap.insert target c connections) fate
    → Good connections fate
added-Good connections target c fate absent good = by_fate fate good
  where
    kept :
        (other : ConnectionIdentifier) (d : Controller)
        → HashMap.get other connections ≡ some d
        → HashMap.get other (HashMap.insert target c connections) ≡ some d
    kept other d e = ground (arith, eq_iff target other, get-insert target other c connections)

    by_fate : (f : Fate) → Good (HashMap.insert target c connections) f → Good connections f
    by_fate (goes after sent) g = (λ other d e. g.0 other d (kept other d e), g.1)
    by_fate (stops tokens) g = λ other d e. g other d (kept other d e)
    by_fate fails g = tt

register-Good :
    (connections : HashMap ConnectionIdentifier Controller) (message : RegisterChannel)
    (made : Ran (Option Controller)) (sent : Ran Bool)
    → Good connections (register connections message made sent)
unfolding register HashMap.contains_key
register-Good connections message made sent =
    elim (Option-cases (HashMap.get message.target_connection connections)) [
      | inl e ↦ rw (register, HashMap.contains_key, e) (by_made made e)
      | inr (c, e) ↦ rw (register, HashMap.contains_key, e) (forward-Good connections message sent)
    ]
  where
    by_made :
        (m : Ran (Option Controller))
        → HashMap.get message.target_connection connections ≡ none
        → Good connections (make connections message m sent)
    by_made cut e = λ target c h. mem-on_cancel connections target c h
    by_made (ran none) e = tt
    by_made (ran (some c)) e =
        added-Good connections message.target_connection c _ e (forward-Good _ message sent)

dispatch-Good :
    (connections : HashMap ConnectionIdentifier Controller) (t : Turn)
    → Good connections (dispatch connections t)
unfolding dispatch
dispatch-Good connections t = by_received t.received
  where
    by_received :
        (r : Ran (Option RegisterChannel))
        → Good connections (dispatch connections (record t { received = r }))
    by_received cut = λ target c h. mem-on_cancel connections target c h
    by_received (ran none) = tt
    by_received (ran (some message)) = register-Good connections message t.made t.sent

Reach-ByTable :
    {connections : HashMap ConnectionIdentifier Controller} {log : List Forward}
    → Reach connections log
    → All (ByTable connections) log
Reach-ByTable start = tt
Reach-ByTable (next {connections} {log} r t {after} {sent} e) =
    let good : Good connections (goes after sent) =
      subst (Good connections) e (dispatch-Good connections t) in
    All-append (ByTable after) sent log good.1 (
      All-mono (ByTable connections) (ByTable after)
        (λ f h. good.0 f.registration.target_connection f.controller h) log (Reach-ByTable r))

-- Two registrations for the same target that the dispatcher has forwarded went to the same handler.
pub one_handler :
    {connections : HashMap ConnectionIdentifier Controller} {log : List Forward}
    → Reach connections log
    → (f g : Forward) → Mem f log
    → Mem g log
    → f.registration.target_connection ≡ g.registration.target_connection
    → f.controller ≡ g.controller
one_handler {connections} {log} r f g mf mg same =
    let hf = All-Mem (ByTable connections) log (Reach-ByTable r) mf in
    let hg = All-Mem (ByTable connections) log (Reach-ByTable r) mg in
    ground (arith, (rw same at hf), hg)

-- When the dispatcher stops by cancellation, it cancels every handler that a registration was forwarded
-- to.
pub cancel_reaches :
    {connections : HashMap ConnectionIdentifier Controller} {log : List Forward}
    → Reach connections log
    → (f : Forward) → Mem f log
    → (t : Turn) {tokens : List Controller} → dispatch connections t ≡ stops tokens
    → Mem f.controller tokens
cancel_reaches {connections} {log} r f m t e =
    subst (Good connections) e (dispatch-Good connections t) f.registration.target_connection
      f.controller (All-Mem (ByTable connections) log (Reach-ByTable r) m)
