-- ===== src/Net/Receiver.antt =====
-- The buffered receiver, src/crates/bey-net/src/receiver.rs. The unbounded channel is the list of
-- the tokens sent and not yet read, with whether a sender is left. A receiver that waits is given a
-- schedule: what arrives, and what the clock shows, between two of its rounds.
mod Tests
pub mod Fifo
pub mod Batch
pub mod Waiting
use bey.Base.{
  ℕ, zero, suc, ◌≤◌, Bool, true, false, not, ◌&&◌, ◌||◌, if◌then◌else◌, ltb, leb, Option, none,
  some, List, [], ◌∷◌, ◌++◌, length, take, drop, ◌==◌, string_eq, ◌-◌,
}
use bey.Base.Errors.{
  NetResult, ok, err, panics, ErrorInfo, new_error, with_category, with_severity, network, error,
  ◌>>=◌,
}
use bey.Net.Token.{Token, TokenType, TokenPriority, rank}

-- `should_receive` of a filter.
abbrev pub ReceiverFilter : Type 0
ReceiverFilter = Token → Bool

unfoldable pub contains : List TokenType → TokenType → Bool
contains [] t = false
contains (u ∷ us) t = u == t || contains us t

unfoldable pub type_filter : List TokenType → ReceiverFilter
type_filter allowed_types token = contains allowed_types token.meta.token_type

unfoldable pub priority_filter : TokenPriority → ReceiverFilter
priority_filter min_priority token = leb (rank min_priority) (rank token.meta.priority)

unfoldable pub apply_filters : List ReceiverFilter → Token → Bool
apply_filters [] token = true
apply_filters (f ∷ fs) token = if f token then apply_filters fs token else false

pub record BufferedReceiver : Type 0 where
  pub buffer : List Token
  pub buffer_size : ℕ
  pub queue : List Token
  pub has_senders : Bool
  pub filters : List ReceiverFilter

unfoldable pub new : ℕ → BufferedReceiver
new buffer_size = record {
  buffer = [];
  buffer_size = buffer_size;
  queue = [];
  has_senders = true;
  filters = [];
}

unfoldable pub add_filter : BufferedReceiver → ReceiverFilter → BufferedReceiver
add_filter r f = record r { filters = r.filters ++ f ∷ [] }

abbrev pub channel_closed : ErrorInfo
channel_closed = with_severity (with_category (new_error 4201) network) error

abbrev pub at_end : Bool → NetResult (Unit {0})
at_end true = ok tt
at_end false = err channel_closed

-- The loop of `fill_buffer` over the channel's tokens, with the buffer so far.
unfoldable pub fill_from :
    BufferedReceiver → List Token → List Token → BufferedReceiver × NetResult (Unit {0})
fill_from r [] buffer = (
  record r { queue = []; buffer = buffer },
  if ltb (length buffer) r.buffer_size then at_end r.has_senders else ok tt,
)
fill_from r (t ∷ queue) buffer =
    let rest = fill_from r queue (if apply_filters r.filters t then buffer ++ t ∷ [] else buffer) in
    if ltb (length buffer) r.buffer_size
    then rest
    else (record r { queue = t ∷ queue; buffer = buffer }, ok tt)

unfoldable pub fill_buffer : BufferedReceiver → BufferedReceiver × NetResult (Unit {0})
fill_buffer r = fill_from r r.queue r.buffer

abbrev pub pop_front : BufferedReceiver → List Token → BufferedReceiver × Option Token
pop_front r [] = (r, none)
pop_front r (t ∷ ts) = (record r { buffer = ts }, some t)

abbrev pub pop : BufferedReceiver → BufferedReceiver × Option Token
pop r = pop_front r r.buffer

-- `fill_buffer` and then `pop_front`, as every mode does in a round.
abbrev pub pop_filled :
    BufferedReceiver × NetResult (Unit {0}) → BufferedReceiver × NetResult (Option Token)
pop_filled (r, ok _) = let (s, t) = pop r in (s, ok t)
pop_filled (r, err e) = (r, err e)
pop_filled (r, panics) = (r, panics)

unfoldable pub poll : BufferedReceiver → BufferedReceiver × NetResult (Option Token)
poll r = pop_filled (fill_buffer r)

-- The first lines of `receive`: a token of the buffer is returned at once.
abbrev pub buffered_or {ℓ} :
    {A : Type ℓ}
    → (NetResult (Option Token) → A)
    → (BufferedReceiver → BufferedReceiver × A)
    → BufferedReceiver
    → List Token
    → BufferedReceiver × A
buffered_or done continue r [] = continue r
buffered_or done continue r (t ∷ ts) = (record r { buffer = ts }, done (ok (some t)))

-- Mode `NonBlocking`.
unfoldable pub receive : BufferedReceiver → BufferedReceiver × NetResult (Option Token)
receive r = buffered_or (λ x. x) poll r r.buffer

-- What happens while the receiver sleeps.
pub record Pause : Type 0 where
  pub arrivals : List Token
  pub leaves : Bool
  pub now : ℕ

abbrev pub after_pause : BufferedReceiver → Pause → BufferedReceiver
after_pause r p = record r {
  queue = r.queue ++ p.arrivals;
  has_senders = r.has_senders && not p.leaves;
}

-- A round that found no token, and its result where the schedule ends with it.
abbrev pub goes_on : NetResult (Option Token) → Bool
goes_on (ok none) = true
goes_on _ = false

abbrev pub stop : NetResult (Option Token) → Option (NetResult (Option Token))
stop (ok none) = none
stop result = some result

-- Mode `Blocking`, over a schedule; `none` is a receiver that still waits at the schedule's end.
unfoldable pub wait :
    List Pause → BufferedReceiver → BufferedReceiver × Option (NetResult (Option Token))
wait [] r = let (s, result) = poll r in (s, stop result)
wait (p ∷ ps) r =
    let (s, result) = poll r in
    let later = wait ps (after_pause s p) in if goes_on result then later else (s, some result)

unfoldable pub receive_blocking :
    List Pause → BufferedReceiver → BufferedReceiver × Option (NetResult (Option Token))
receive_blocking ps r = buffered_or some (wait ps) r r.buffer

-- Mode `Timeout`: the clock is read after each round that finds nothing.
unfoldable pub wait_until :
    ℕ → List Pause → BufferedReceiver → BufferedReceiver × Option (NetResult (Option Token))
wait_until deadline [] r = let (s, result) = poll r in (s, stop result)
wait_until deadline (p ∷ ps) r =
    let (s, result) = poll r in
    let later = wait_until deadline ps (after_pause s p) in
    if goes_on result
    then (if leb deadline p.now then (s, some (ok none)) else later)
    else (s, some result)

unfoldable pub receive_timeout :
    ℕ → List Pause → BufferedReceiver → BufferedReceiver × Option (NetResult (Option Token))
receive_timeout deadline ps r = buffered_or some (wait_until deadline ps) r r.buffer

-- The `while` loops of `receive_batch`: up to `n` tokens from the front of the buffer.
abbrev pub take_front : ℕ → BufferedReceiver → BufferedReceiver × List Token
take_front n r = (record r { buffer = drop n r.buffer }, take n r.buffer)

-- After the buffer has given `tokens`, the rest is taken from what the channel gives; an error of
-- `fill_buffer` ends the call, and the tokens taken before are dropped with it.
abbrev pub refill_batch :
    ℕ
    → List Token
    → BufferedReceiver × NetResult (Unit {0})
    → BufferedReceiver × NetResult (List Token)
refill_batch max_count tokens (r, ok _) =
    let (s, more) = take_front (max_count - length tokens) r in (s, ok (tokens ++ more))
refill_batch max_count tokens (r, err e) = (r, err e)
refill_batch max_count tokens (r, panics) = (r, panics)

unfoldable pub receive_batch : BufferedReceiver → ℕ → BufferedReceiver × NetResult (List Token)
receive_batch r max_count =
    let (s, tokens) = take_front max_count r in
    if ltb (length tokens) max_count
    then refill_batch max_count tokens (fill_buffer s)
    else (s, ok tokens)

abbrev pub front : List Token → Option Token
front [] = none
front (t ∷ ts) = some t

abbrev pub peek_filled :
    BufferedReceiver × NetResult (Unit {0}) → BufferedReceiver × NetResult (Option Token)
peek_filled (r, ok _) = (r, ok (front r.buffer))
peek_filled (r, err e) = (r, err e)
peek_filled (r, panics) = (r, panics)

unfoldable pub peek : BufferedReceiver → BufferedReceiver × NetResult (Option Token)
peek r = peek_filled (fill_buffer r)

unfoldable pub pending_count : BufferedReceiver → ℕ
pending_count r = length r.buffer

unfoldable pub clear : BufferedReceiver → BufferedReceiver
clear r = record r { buffer = [] }
