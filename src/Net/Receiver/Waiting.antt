-- ===== src/Net/Receiver/Waiting.antt =====
-- The receiver in mode `Blocking`.
use bey.Base.{◌≡◌, Option, none, some, List, [], ◌∷◌, ◌++◌}
use bey.Base.Errors.{NetResult, ok, err, panics}
use bey.Net.Token.{Token}
use bey.Net.Receiver.{BufferedReceiver, Pause, channel_closed}
use bey.Net.Receiver.Fifo.{passing, view}

-- What arrives while the receiver waits.
abbrev pub arriving : List Pause → List Token
arriving [] = []
arriving (p ∷ ps) = p.arrivals ++ arriving ps

-- The tokens that the receiver is to deliver over the whole schedule.
abbrev pub offered : List Pause → BufferedReceiver → List Token
offered ps r = view r ++ passing r (arriving ps)

-- What a call returns; `none` is a call that still waits.
abbrev pub Waits : List Token → Option (NetResult (Option Token)) → Type 0
Waits offer (some (ok (some t))) = (rest : List Token) × (offer ≡ t ∷ rest)
Waits offer (some (ok none)) = ⊥
Waits offer (some (err e)) = e ≡ channel_closed
Waits offer (some panics) = ⊥
Waits offer none = offer ≡ []

-- A round keeps the filters and the buffer's size.
abbrev Same : BufferedReceiver → BufferedReceiver → Type 0
Same r s = (s.filters ≡ r.filters) × (s.buffer_size ≡ r.buffer_size)
