-- ===== src/Tcp/Registry.antt =====
-- `control_socket` and `control_socket_handler` of network/src/receiver.rs: the channels that wait for a
-- sender, and those that wait for their data connection. Queues and tokens are named by numbers; whether
-- a token is cancelled, and whether a message gets through, is an argument.
pub mod Attached
pub mod Once
pub mod Service
pub mod Offers
pub mod Stopped
use bdspro_udp_v.Common.{
  All, All-Mem, All-append, All-mono, All_of_Mem, Bool, Bool-cases, Eq, List, Mem, Mem-append_left,
  Mem-append_right, Option, Option-cases, String, [], ap, arith, eq_iff, eqb, eqb_iff, false,
  get_elem?, get_elem?-append, get_elem?-append_left, if◌then◌else◌, inl, inr, leb, length,
  length-append, ltb, map, nat_eq, none, not, pair_eq, pair_same, refl, replicate, some, string_eq,
  subst, suc, sym, take, take_of_length-le, true, zero, ℕ, ℕ_discrete, ◌%◌, ◌&&◌, ◌*◌, ◌++◌, ◌+◌,
  ◌-◌, ◌/◌, ◌<◌, ◌==◌, ◌^◌, ◌||◌, ◌↔◌, ◌∙◌, ◌∷◌, ◌≡◌, ◌≢◌, ◌≤◌, ◌⊎◌,
}
use bdspro_udp_v.HashMap
use bdspro_udp_v.HashMap.{HashMap}
use bdspro_udp_v.Tcp.Protocol.{
  ChannelIdentifier, ConnectionIdentifier, ControlChannelRequest, channel_request,
  ControlChannelResponse, ok_channel_response, deny_channel_response,
}

-- A channel's queue and cancellation token.
pub record Entry : Type 0 where
  pub queue : ℕ
  pub token : ℕ

abbrev pub OpenKey : Type 0
OpenKey = ConnectionIdentifier × ChannelIdentifier

instance abbrev pub open_key_eq : Eq OpenKey
open_key_eq = pair_eq string_eq string_eq

-- `RegisteredChannels` and `OpenedChannels`, and the tasks that were spawned for a channel and have not
-- put it into the second table yet. An opened channel has a task that waits for its stream, with the
-- entry; to replace it in the table ends that task.
pub record Registry : Type 0 where
  pub registered : HashMap ChannelIdentifier Entry
  pub spawned : List (OpenKey × Entry)
  pub opened : HashMap OpenKey Entry

abbrev pub new : Registry
new = record { registered = []; spawned = []; opened = [] }

-- How a message ends for the loop of `control_socket_handler`: it goes on with its active tokens, or
-- returns, having cancelled some.
pub data Outcome : Type 0 where
  continues : List ℕ → List ControlChannelResponse → Outcome
  ends : List ℕ → Outcome

unfoldable pub retain_active : (ℕ → Bool) → List ℕ → List ℕ
retain_active is_cancelled [] = []
retain_active is_cancelled (t ∷ ts) =
    let rest = retain_active is_cancelled ts in if is_cancelled t then rest else t ∷ rest

unfoldable pub reply : List ℕ → ControlChannelResponse → Bool → Outcome
reply active response true = continues active (response ∷ [])
reply active response false = ends []

-- `create_channel_handler`: the channel has left its table, and the task is spawned.
unfoldable pub open_channel : Registry → ConnectionIdentifier → ChannelIdentifier → Entry → Registry
open_channel r connection channel e = record r {
  registered = HashMap.remove channel r.registered;
  spawned = r.spawned ++ ((connection, channel), e) ∷ [];
}

unfoldable pub remove_at {ℓ} : {A : Type ℓ} → ℕ → List A → List A
remove_at n [] = []
remove_at zero (x ∷ xs) = xs
remove_at (suc n) (x ∷ xs) = x ∷ remove_at n xs

-- The spawned task, one of those that are there, puts its channel into the table of opened ones.
unfoldable pub on_spawned : Registry → ℕ → Registry
unfolding remove_at
on_spawned r n = elim (get_elem? r.spawned n) [
  | none ↦ r
  | some (key, e) ↦ record r {
    spawned = remove_at n r.spawned;
    opened = HashMap.insert key e r.opened;
  }
]

-- The token becomes active after the reply.
unfoldable pub grant : List ℕ → Entry → ℕ → Bool → Outcome
grant active e port true = continues (active ++ e.token ∷ []) (ok_channel_response port ∷ [])
grant active e port false = ends []

unfoldable pub on_request :
    Registry
    → ConnectionIdentifier
    → ChannelIdentifier
    → List ℕ
    → (ℕ → Bool)
    → ℕ
    → Bool
    → Registry × Outcome
unfolding retain_active reply open_channel grant
on_request r connection channel active is_cancelled port written =
    let active' = retain_active is_cancelled active in
    elim (HashMap.get channel r.registered) [
      | none ↦ (r, reply active' deny_channel_response written)
      | some e ↦ (open_channel r connection channel e, grant active' e port written)
    ]

-- The control connection was closed.
unfoldable pub on_closed : List ℕ → Outcome
on_closed active = ends active

-- A data connection, and the entry whose task gets its stream.
unfoldable pub on_stream :
    Registry → ConnectionIdentifier → ChannelIdentifier → Registry × Option Entry
on_stream r connection channel = elim (HashMap.get (connection, channel) r.opened) [
  | none ↦ (r, none)
  | some e ↦ (record r { opened = HashMap.remove (connection, channel) r.opened }, some e)
]

unfoldable pub retain_registered :
    (ℕ → Bool) → HashMap ChannelIdentifier Entry → HashMap ChannelIdentifier Entry
retain_registered is_cancelled [] = []
retain_registered is_cancelled ((c, e) ∷ m) =
    let rest = retain_registered is_cancelled m in
    if is_cancelled e.token then rest else (c, e) ∷ rest

-- A new channel; its token is cancelled when the one that registered it is gone.
unfoldable pub on_register :
    Registry → ChannelIdentifier → Entry → (ℕ → Bool) → Bool → Registry × List ℕ
unfolding retain_registered
on_register r channel e is_cancelled is_there = (
  record r { registered = HashMap.insert channel e (retain_registered is_cancelled r.registered) },
  if is_there then [] else e.token ∷ [],
)

-- A channel that is to be opened again.
unfoldable pub on_retry : Registry → ChannelIdentifier → Entry → Registry
on_retry r channel e = record r { registered = HashMap.insert channel e r.registered }

-- The service is gone: the tokens that are cancelled.
unfoldable pub on_shutdown : HashMap ChannelIdentifier Entry → List ℕ
on_shutdown [] = []
on_shutdown ((_, e) ∷ m) = e.token ∷ on_shutdown m
