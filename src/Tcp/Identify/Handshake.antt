-- ===== src/Tcp/Identify/Handshake.antt =====
-- What the two ends agree on.
use bdspro_udp_v.Common.{
  Bool, List, Option, [], arith, false, nat_eq, refl, some, string_eq, sym, true, ◌∷◌, ◌≡◌,
}
use bdspro_udp_v.Tcp.Registry.{Registry, on_stream}
use bdspro_udp_v.Tcp.Identify.{
  IdentificationResponse, accepted, not_ok, IdentificationRequest, i_am_connection, i_am_channel,
  Read, ended, broken, got, Framing, exchange, on_answer, create_connection, create_channel,
  identified_as, framing_of, identify_connection, Accepted, attach, on_accept, control_handler,
  control_channel, data_channel,
}

-- What a reader may yield of what was written at the other end: an end or an error, or the first of it.
abbrev pub Carries : {A : Type 0} → List A → Read A → Type 0
Carries written ended = Unit
Carries written broken = Unit
Carries [] (got a) = ⊥
Carries (first ∷ rest) (got a) = first ≡ a

-- Where the sender has a stream, the receiver has identified it as what the request says.
agree :
    (request : IdentificationRequest) (framing : Framing) (reached sent answered : Bool)
    (read : Read IdentificationRequest) (answer : Read IdentificationResponse) {made : Framing}
    → Carries (exchange request framing reached sent answer).0 read
    → Carries (identify_connection read answered).0 answer
    → (exchange request framing reached sent answer).1 ≡ some made
    → (framing ≡ made) × ((identify_connection read answered).1 ≡ some (identified_as request))
unfolding exchange on_answer identify_connection
agree request framing false sent answered read answer there back e = absurd (ground (arith, e))
agree request framing true false answered read answer there back e = absurd (ground (arith, e))
agree request framing true true answered read ended there back e = absurd (ground (arith, e))
agree request framing true true answered read broken there back e = absurd (ground (arith, e))
agree request framing true true answered read (got not_ok) there back e = absurd (ground (arith, e))
agree request framing true true answered ended (got accepted) there back e = absurd back
agree request framing true true answered broken (got accepted) there back e = absurd back
agree request framing true true false (got r) (got accepted) there back e = absurd back
agree request framing true true true (got r) (got accepted) there back e =
    (ground (arith, e), rw there refl)

-- `create_connection` or `create_channel`, by the request that it writes.
abbrev pub create :
    IdentificationRequest
    → (reached sent : Bool) → Read IdentificationResponse
    → List IdentificationRequest × Option Framing
create (i_am_connection this) = create_connection this
create (i_am_channel this ch) = create_channel this ch

-- What the receiver is to do with the stream.
abbrev pub served : Registry → IdentificationRequest → Registry × Accepted
served r (i_am_connection this) = (r, control_handler this)
served r (i_am_channel this ch) = attach (on_stream r this ch)

-- When `create_connection` or `create_channel` has made a stream, the receiver has identified the same: it
-- frames the stream as the sender does, and starts a control handler for the sender, or hands the
-- stream to the channel that the sender named, if this waits in its table, and drops it otherwise.
pub handshake :
    (request : IdentificationRequest) (reached sent answered : Bool)
    (read : Read IdentificationRequest) (answer : Read IdentificationResponse) (r : Registry)
    {made : Framing}
    → Carries (create request reached sent answer).0 read
    → Carries (identify_connection read answered).0 answer
    → (create request reached sent answer).1 ≡ some made
    → (made ≡ framing_of (identified_as request))
      × (on_accept r (identify_connection read answered).1 ≡ served r request)
unfolding create_connection create_channel framing_of on_accept identified_as
handshake (i_am_connection this) reached sent answered read answer r there back e =
    let (same, is) =
      agree (i_am_connection this) control_channel reached sent answered read answer there back e in
    (sym same, rw is refl)
handshake (i_am_channel this ch) reached sent answered read answer r there back e =
    let (same, is) =
      agree (i_am_channel this ch) data_channel reached sent answered read answer there back e in
    (sym same, rw is refl)
