-- ===== src/Net/Token/Router/Routing.antt =====
-- Which handler a token reaches after the router's table has changed.
use bey.Base.{
  ◌≡◌, refl, Bool, false, ◌||◌, if◌then◌else◌, some, List, [], ◌∷◌, HashMap, lookup, insert,
  lookup-insert, lookup-remove, ◌==◌, string_eq, arith,
}
use bey.Net.Token.{Token, TokenType}
use bey.Net.Token.Router.{
  TokenHandler, TokenRouter, insert_all, register_handler, unregister_handler, route_token, serve,
  fall_back,
}

pub contains : List TokenType → TokenType → Bool
contains [] t = false
contains (u ∷ us) t = u == t || contains us t

lookup-insert_all :
    (ts : List TokenType) (h : TokenHandler) (m : HashMap TokenType TokenHandler) (t : TokenType)
    → lookup t (insert_all ts h m) ≡ (if contains ts t then some h else lookup t m)
unfolding insert_all contains
lookup-insert_all [] h m t = refl
lookup-insert_all (u ∷ us) h m t =
    ground (arith, lookup-insert_all us h (insert u h m) t, lookup-insert u t h m)

-- After `register_handler` a token of one of the handler's types is validated and handled by it, and
-- any other token is routed as before.
pub route_token-register_handler :
    (r : TokenRouter) (h : TokenHandler) (token : Token)
    → route_token (register_handler r h) token ≡ (
        if contains h.token_types token.meta.token_type then serve h token else route_token r token)
unfolding route_token register_handler
route_token-register_handler r h token =
    ground (arith, lookup-insert_all h.token_types h r.handlers token.meta.token_type)

-- After `unregister_handler` a token of that type goes to the default handler, or fails with error
-- 4004 where there is none, and any other token is routed as before.
pub route_token-unregister_handler :
    (r : TokenRouter) (t : TokenType) (token : Token)
    → route_token (unregister_handler r t) token ≡ (
        if t == token.meta.token_type
        then fall_back r.default_handler token
        else route_token r token)
unfolding route_token unregister_handler
route_token-unregister_handler r t token =
    ground (arith, lookup-remove t token.meta.token_type r.handlers)
