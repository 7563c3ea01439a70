-- ===== src/Net/Engine/Receiving/Tests.antt =====
-- The theorem about the automatic loop at a concrete input: one message and a handler that returns it.
use bey.Base.{false, none, some, [], ◌∷◌, string_eq}
use bey.Base.Errors.{ok}
use bey.Net.Token.{Token, new_meta}
use bey.Net.Token.Router.{TokenHandler, TokenRouter, default_validate}
use bey.Net.Receiver.{BufferedReceiver}
use bey.Net.Receiver
use bey.Net.Metrics
use bey.Net.Engine.Crypto.{Cipher}
use bey.Net.Engine.Receiving.{ReceiveLoop}

abbrev none_at_all : Cipher
none_at_all = record { seal = λ key nonce bytes. none; unseal = λ key nonce bytes. none }

abbrev echo : TokenHandler
echo = record {
  token_types = [];
  validate_token = default_validate;
  handle_token = λ token. ok (some token);
}

abbrev echoing : TokenRouter
echoing = record { handlers = []; default_handler = some echo }

abbrev greeting : Token
greeting = record { meta = new_meta "a" 0 "chat" "bob"; payload = 1 ∷ 2 ∷ [] }

abbrev listening : ReceiveLoop
listening = record {
  receiver = record (Receiver.new 4) { queue = greeting ∷ [] };
  router = echoing;
  metrics = Metrics.new 0;
  master_key = none;
  enable_encryption = false;
}
