-- ===== src/Net/Token/Tests.antt =====
-- Sample tokens for the tests of the parts that pass tokens on (src/crates/bey-net/src/token.rs).
use bey.Base.{true, false, none, [], ◌∷◌, String}
use bey.Net.Token.{Token, TokenPriority}

abbrev pub token_of : String → TokenPriority → Token
token_of id priority = record {
  meta = record {
    id = id;
    token_type = "message";
    sender_id = "node";
    receiver_id = none;
    timestamp = 1;
    priority = priority;
    requires_ack = true;
    encrypted = false;
    attributes = [];
  };
  payload = 1 ∷ 2 ∷ [];
}
