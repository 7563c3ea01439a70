-- ===== src/Net/Engine/Receiving.antt =====
-- How the engine receives, src/crates/bey-net/src/engine.rs: receive_token and a round of the task
-- of start_auto_receive_loop. Its sender is the one of the receiver's own channel, so a response
-- goes to the end of that channel.
pub mod Echoing
mod Tests
use bey.Base.{
  String, ℕ, Bool, true, false, ◌&&◌, if◌then◌else◌, Option, none, some, List, [], ◌∷◌, ◌++◌,
  length,
}
use bey.Base.Errors
use bey.Base.Errors.{
  NetResult, ok, err, panics, ◌>>=◌, ErrorInfo, new_error, with_category, with_severity, system,
  warning, network,
}
use bey.Net.StateMachine.{ConnectionStateMachine, can_transfer}
use bey.Net.Token.{Token}
use bey.Net.Token.Router.{TokenRouter, route_token}
use bey.Net.Receiver.{BufferedReceiver, Pause, receive, receive_blocking, receive_timeout}
use bey.Net.Metrics.{MetricsCollector, record_receive}
use bey.Net.Engine.Crypto.{Cipher, decrypt_token}

-- `ReceiverMode`, with what arrives while the receiver waits.
pub data ReceiverMode : Type 0 where
  non_blocking : ReceiverMode
  blocking : List Pause → ReceiverMode
  times_out : ℕ → List Pause → ReceiverMode

abbrev pub returned :
    BufferedReceiver × NetResult (Option Token)
    → BufferedReceiver × Option (NetResult (Option Token))
returned (r, result) = (r, some result)

abbrev pub receive_in :
    ReceiverMode → BufferedReceiver → BufferedReceiver × Option (NetResult (Option Token))
receive_in non_blocking r = returned (receive r)
receive_in (blocking pauses) r = receive_blocking pauses r
receive_in (times_out deadline pauses) r = receive_timeout deadline pauses r

abbrev pub wrap : Token → NetResult (Option Token)
wrap token = ok (some token)

abbrev pub decrypt_received : Cipher → Option (List ℕ) → Option Token → NetResult (Option Token)
decrypt_received cipher key none = ok none
decrypt_received cipher key (some token) =
    if token.meta.encrypted then (decrypt_token cipher key token >>= wrap) else ok (some token)

abbrev pub finish_receive :
    Cipher
    → Option (List ℕ)
    → BufferedReceiver × Option (NetResult (Option Token))
    → BufferedReceiver × Option (NetResult (Option Token))
finish_receive cipher key (r, none) = (r, none)
finish_receive cipher key (r, some result) = (r, some (result >>= decrypt_received cipher key))

-- No result is a receiver that still waits.
unfoldable pub receive_token :
    Cipher
    → Option (List ℕ)
    → ConnectionStateMachine
    → ReceiverMode
    → BufferedReceiver
    → BufferedReceiver × Option (NetResult (Option Token))
receive_token cipher key machine mode r =
    if can_transfer machine
    then finish_receive cipher key (receive_in mode r)
    else (r, some (err (with_severity (with_category (new_error 4306) system) warning)))

-- The sender, the type and the payload of a token.
abbrev pub Message : Type 0
Message = String × String × List ℕ

abbrev pub message_of : Token → Message
message_of token = (token.meta.sender_id, token.meta.token_type, token.payload)

abbrev pub recorded : MetricsCollector → NetResult (Option Token) → MetricsCollector
recorded m (ok (some token)) = record_receive m (length token.payload)
recorded m (ok none) = m
recorded m (err e) = m
recorded m panics = m

abbrev pub to_message : Option Token → Option Message
to_message none = none
to_message (some token) = some (message_of token)

abbrev pub optional_message : Option Token → NetResult (Option Message)
optional_message token = ok (to_message token)

abbrev pub some_message : Option Token → NetResult Message
some_message none = err (with_severity (with_category (new_error 4701) network) Errors.error)
some_message (some token) = ok (message_of token)

abbrev pub deliver :
    {A : Type 0}
    → (Option Token → NetResult A)
    → MetricsCollector
    → BufferedReceiver × Option (NetResult (Option Token))
    → BufferedReceiver × MetricsCollector × Option (NetResult A)
deliver f m (r, none) = (r, m, none)
deliver f m (r, some result) = (r, recorded m result, some (result >>= f))

-- `receive` of the engine.
unfoldable pub receive_message :
    Cipher
    → Option (List ℕ)
    → ConnectionStateMachine
    → MetricsCollector
    → BufferedReceiver
    → BufferedReceiver × MetricsCollector × Option (NetResult (Option Message))
receive_message cipher key machine m r =
    deliver optional_message m (receive_token cipher key machine non_blocking r)

-- `receive_blocking` of the engine, with what arrives while it waits.
unfoldable pub await_message :
    Cipher
    → Option (List ℕ)
    → ConnectionStateMachine
    → MetricsCollector
    → List Pause
    → BufferedReceiver
    → BufferedReceiver × MetricsCollector × Option (NetResult Message)
await_message cipher key machine m pauses r =
    deliver some_message m (receive_token cipher key machine (blocking pauses) r)

-- What the task of the automatic loop shares with the engine.
pub record ReceiveLoop : Type 0 where
  pub receiver : BufferedReceiver
  pub router : TokenRouter
  pub metrics : MetricsCollector
  pub master_key : Option (List ℕ)
  pub enable_encryption : Bool

-- `sender.send`.
abbrev pub respond : ReceiveLoop → NetResult (Option Token) → ReceiveLoop
respond l (ok none) = l
respond l (ok (some response)) = record l {
  receiver = record l.receiver { queue = l.receiver.queue ++ response ∷ [] };
}
respond l (err e) = l
respond l panics = l

abbrev pub serve_token : ReceiveLoop → Token → ReceiveLoop
serve_token l token =
    respond (record l { metrics = record_receive l.metrics (length token.payload) })
      (route_token l.router token)

-- A token that does not decrypt is dropped.
abbrev pub serve_decrypted : ReceiveLoop → NetResult Token → ReceiveLoop
serve_decrypted l (ok token) = serve_token l token
serve_decrypted l (err e) = l
serve_decrypted l panics = l

abbrev pub serve_received : Cipher → ReceiveLoop → Token → ReceiveLoop
serve_received cipher l token =
    if token.meta.encrypted && l.enable_encryption
    then serve_decrypted l (decrypt_token cipher l.master_key token)
    else serve_token l token

abbrev pub after_receive :
    Cipher → ReceiveLoop → BufferedReceiver × NetResult (Option Token) → ReceiveLoop
after_receive cipher l (r, ok (some token)) =
    serve_received cipher (record l { receiver = r }) token
after_receive cipher l (r, ok none) = record l { receiver = r }
after_receive cipher l (r, err e) = record l { receiver = r }
after_receive cipher l (r, panics) = record l { receiver = r }

-- A round of the loop.
unfoldable pub auto_receive : Cipher → ReceiveLoop → ReceiveLoop
auto_receive cipher l = after_receive cipher l (receive l.receiver)
