-- ===== src/Net/Engine/Receiving/Echoing.antt =====
-- Where the responses of the handlers go (src/crates/bey-net/src/engine.rs).
use bey.Base.{ℕ, zero, suc, ◌<◌, ◌≡◌, true, false, List, [], ◌∷◌, ◌++◌}
use bey.Net.Token.{Token}
use bey.Net.Token.Router.{TokenRouter}
use bey.Net.Receiver.{BufferedReceiver}
use bey.Net.Receiver.Fifo.{view}
use bey.Net.Engine.Crypto.{Cipher}
use bey.Net.Engine.Receiving.{ReceiveLoop, auto_receive}

-- A receiver with a sender, no filter and room for a token, as the engine has it.
pub record IsOpen (r : BufferedReceiver) : Type 0 where
  pub has_room : 0 < r.buffer_size
  pub is_connected : r.has_senders ≡ true
  pub no_filters : r.filters ≡ []

-- Some rounds of the loop.
module _ (cipher : Cipher) where
  unfoldable pub rounds : ℕ → ReceiveLoop → ReceiveLoop
  rounds zero l = l
  rounds (suc n) l = rounds n (auto_receive cipher l)

module _ (cipher : Cipher) (router : TokenRouter) (answer : Token → Token) where
  -- The loop of an engine without encryption.
  record Serves (l : ReceiveLoop) : Type 0 where
    uses : l.router ≡ router
    plain : l.enable_encryption ≡ false
    channel : IsOpen l.receiver

  -- After a round the token is replaced by its answer, behind the others.
  abbrev Echoes : Token → List Token → ReceiveLoop → ReceiveLoop → Type 0
  Echoes t ts l n =
      Serves n
      × (view n.receiver ≡ ts ++ answer t ∷ [])
      × (n.metrics.metrics.tokens_received ≡ suc l.metrics.metrics.tokens_received)
