-- ===== src/Net/Token/Router.antt =====
-- The token router of src/crates/bey-net/src/token.rs. A handler is what the router sees of it: the
-- types that it serves, and its answers to `validate_token` and `handle_token`.
pub mod Routing
use bey.Base.{
  Bool, true, false, if◌then◌else◌, Option, none, some, List, [], ◌∷◌, HashMap, lookup, insert,
  remove, string_eq,
}
use bey.Base.Errors.{
  NetResult, ok, err, ErrorInfo, new_error, with_category, with_severity, validation, warning,
  not_implemented, ◌>>=◌,
}
use bey.Net.Token.{Token, TokenType}

pub record TokenHandler : Type 0 where
  pub token_types : List TokenType
  pub validate_token : Token → NetResult Bool
  pub handle_token : Token → NetResult (Option Token)

-- The trait's own `validate_token`.
abbrev pub default_validate : Token → NetResult Bool
default_validate _ = ok true

pub record TokenRouter : Type 0 where
  pub handlers : HashMap TokenType TokenHandler
  pub default_handler : Option TokenHandler

unfoldable pub new : TokenRouter
new = record { handlers = []; default_handler = none }

unfoldable pub insert_all :
    List TokenType → TokenHandler → HashMap TokenType TokenHandler → HashMap TokenType TokenHandler
insert_all [] handler m = m
insert_all (t ∷ ts) handler m = insert_all ts handler (insert t handler m)

unfoldable pub register_handler : TokenRouter → TokenHandler → TokenRouter
register_handler r handler = record r {
  handlers = insert_all handler.token_types handler r.handlers;
}

unfoldable pub set_default_handler : TokenRouter → TokenHandler → TokenRouter
set_default_handler r handler = record r { default_handler = some handler }

abbrev pub validation_failed : ErrorInfo
validation_failed = with_severity (with_category (new_error 4003) validation) warning

abbrev pub no_handler : ErrorInfo
no_handler = with_severity (with_category (new_error 4004) not_implemented) warning

unfoldable pub serve : TokenHandler → Token → NetResult (Option Token)
serve handler token = do
  valid ← handler.validate_token token
  if valid then handler.handle_token token else err validation_failed

unfoldable pub fall_back : Option TokenHandler → Token → NetResult (Option Token)
fall_back (some handler) token = handler.handle_token token
fall_back none token = err no_handler

abbrev pub choose : Option TokenHandler → Option TokenHandler → Token → NetResult (Option Token)
choose (some handler) default token = serve handler token
choose none default token = fall_back default token

unfoldable pub route_token : TokenRouter → Token → NetResult (Option Token)
route_token r token = choose (lookup token.meta.token_type r.handlers) r.default_handler token

unfoldable pub unregister_handler : TokenRouter → TokenType → TokenRouter
unregister_handler r token_type = record r { handlers = remove token_type r.handlers }
