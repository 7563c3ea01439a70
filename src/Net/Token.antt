-- ===== src/Net/Token.antt =====
-- Tokens, src/crates/bey-net/src/token.rs. The fresh identifier (`Uuid::new_v4`) and the clock are
-- arguments. Payload bytes are numbers.
pub mod Tests
pub mod Router
use Prim.Native.String.{◌++◌ as str_append}
use bey.Base.{ℕ, Bool, false, Option, none, some, List, [], String, HashMap, insert, string_eq}

abbrev pub TokenId : Type 0
TokenId = String

abbrev pub TokenType : Type 0
TokenType = String

pub data TokenPriority : Type 0 where
  low normal high critical : TokenPriority

-- The discriminants, which the derived order compares.
abbrev pub rank : TokenPriority → ℕ
rank low = 0
rank normal = 1
rank high = 2
rank critical = 3

pub record TokenMeta : Type 0 where
  pub id : TokenId
  pub token_type : TokenType
  pub sender_id : String
  pub receiver_id : Option String
  pub timestamp : ℕ
  pub priority : TokenPriority
  pub requires_ack : Bool
  pub encrypted : Bool
  pub attributes : HashMap String String

pub record Token : Type 0 where
  pub meta : TokenMeta
  pub payload : List ℕ

unfoldable pub new_meta : TokenId → ℕ → TokenType → String → TokenMeta
new_meta fresh now token_type sender_id = record {
  id = fresh;
  token_type = token_type;
  sender_id = sender_id;
  receiver_id = none;
  timestamp = now;
  priority = normal;
  requires_ack = false;
  encrypted = false;
  attributes = [];
}

unfoldable pub with_receiver : TokenMeta → String → TokenMeta
with_receiver m receiver_id = record m { receiver_id = some receiver_id }

unfoldable pub with_priority : TokenMeta → TokenPriority → TokenMeta
with_priority m priority = record m { priority = priority }

unfoldable pub with_ack : TokenMeta → Bool → TokenMeta
with_ack m requires_ack = record m { requires_ack = requires_ack }

unfoldable pub with_encryption : TokenMeta → Bool → TokenMeta
with_encryption m encrypted = record m { encrypted = encrypted }

unfoldable pub with_attribute : TokenMeta → String → String → TokenMeta
with_attribute m key value = record m { attributes = insert key value m.attributes }

abbrev or_default : Option String → String
or_default none = ""
or_default (some s) = s

unfoldable pub response : TokenId → ℕ → Token → List ℕ → Token
unfolding new_meta
response fresh now request payload =
    let meta =
      new_meta fresh now (str_append request.meta.token_type "_response")
        (or_default request.meta.receiver_id) in
    record {
      meta = record meta {
        receiver_id = some request.meta.sender_id;
        priority = request.meta.priority;
        encrypted = request.meta.encrypted;
        attributes = insert "request_id" request.meta.id meta.attributes;
      };
      payload = payload;
    }
