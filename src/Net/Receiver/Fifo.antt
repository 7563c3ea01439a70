-- ===== src/Net/Receiver/Fifo.antt =====
-- The order in which the receiver delivers: the tokens that pass the filters, as they were sent.
use mathlib.Core.List.{append_assoc}
use bey.Base.{
  ltb→lt, ◌≤◌, ◌<◌, ◌≡◌, refl, subst, sym, ap, ◌∙◌, max, true, false, ltb, Option, none, some, List,
  [], ◌∷◌, ◌++◌, length, retain, length-append, arith, ◌≢◌, Bool-cases, inl, inr,
}
use bey.Base.Errors.{NetResult, ErrorInfo, ok, err, panics}
use bey.Net.Token.{Token}
use bey.Net.Receiver.{
  BufferedReceiver, apply_filters, fill_from, fill_buffer, poll, pop_front, pop_filled, buffered_or,
  receive, channel_closed,
}

-- The tokens that the receiver is still to deliver: its buffer, then what the filters let through
-- of the channel.
abbrev pub passing : BufferedReceiver → List Token → List Token
passing r = retain (apply_filters r.filters)

abbrev pub view : BufferedReceiver → List Token
view r = r.buffer ++ passing r r.queue

-- What `fill_buffer` on `r`, with `queue` to read and `buffer` filled, leaves and returns.
pub record Fills (r : BufferedReceiver) (queue buffer : List Token) (s : BufferedReceiver)
    (result : NetResult (Unit {0})) : Type 0 where
  pub kept : s.buffer ++ passing r s.queue ≡ buffer ++ passing r queue
  pub filters : s.filters ≡ r.filters
  pub size : s.buffer_size ≡ r.buffer_size
  pub senders : s.has_senders ≡ r.has_senders
  pub bounded : length s.buffer ≤ max (length buffer) r.buffer_size
  pub drained : s.buffer ≡ [] → 0 < r.buffer_size → s.queue ≡ []
  pub closed :
      (e : ErrorInfo)
      → result ≡ err e
      → (e ≡ channel_closed) × (r.has_senders ≡ false) × (s.queue ≡ [])
  pub running : result ≢ panics

module _ (r : BufferedReceiver) (t : Token) (queue buffer : List Token) {s : BufferedReceiver}
    {o : NetResult (Unit {0})} where
  fill_skipped :
      apply_filters r.filters t ≡ false → Fills r queue buffer s o → Fills r (t ∷ queue) buffer s o
  fill_skipped skip v = record {
    kept = ground (arith, v.kept);
    filters = v.filters;
    size = v.size;
    senders = v.senders;
    bounded = v.bounded;
    drained = v.drained;
    closed = v.closed;
    running = v.running;
  }

  fill_kept :
      apply_filters r.filters t ≡ true
      → length buffer < r.buffer_size
      → Fills r queue (buffer ++ t ∷ []) s o
      → Fills r (t ∷ queue) buffer s o
  fill_kept keep room v = record {
    kept = ground (arith, v.kept, append_assoc buffer (t ∷ []) (passing r queue));
    filters = v.filters;
    size = v.size;
    senders = v.senders;
    bounded = omega (arith, v.bounded, length-append buffer (t ∷ []));
    drained = v.drained;
    closed = v.closed;
    running = v.running;
  }

pub fill_from-Fills :
    (r : BufferedReceiver) (queue buffer : List Token)
    → Fills r queue buffer (fill_from r queue buffer).0 (fill_from r queue buffer).1
unfolding fill_from
fill_from-Fills r [] buffer = ground arith
fill_from-Fills r (t ∷ queue) buffer = elim (Bool-cases (ltb (length buffer) r.buffer_size)) [
  | inr full ↦ rw full (ground arith)
  | inl room ↦ rw room (elim (Bool-cases (apply_filters r.filters t)) [
    | inl keep ↦
        subst (λ b. Fills r (t ∷ queue) buffer (fill_from r queue b).0 (fill_from r queue b).1)
          (ground arith)
          (fill_kept r t queue buffer keep (ltb→lt (length buffer) r.buffer_size room)
            (fill_from-Fills r queue (buffer ++ t ∷ [])))
    | inr skip ↦
        subst (λ b. Fills r (t ∷ queue) buffer (fill_from r queue b).0 (fill_from r queue b).1)
          (ground arith) (fill_skipped r t queue buffer skip (fill_from-Fills r queue buffer))
  ])
]

-- What one round on `r` leaves and returns.
abbrev pub Polls : BufferedReceiver → BufferedReceiver → NetResult (Option Token) → Type 0
Polls r s (ok (some t)) = view r ≡ t ∷ view s
Polls r s (ok none) = (view r ≡ []) × (view s ≡ [])
Polls r s (err e) = (view s ≡ view r) × (e ≡ channel_closed) × (r.has_senders ≡ false)
Polls r s panics = ⊥

pub view-filled :
    (r s : BufferedReceiver) {o : NetResult (Unit {0})}
    → Fills r r.queue r.buffer s o
    → view s ≡ view r
view-filled r s v = rw v.filters v.kept

popped :
    (r s : BufferedReceiver) (b : List Token) {o : NetResult (Unit {0})}
    → s.buffer ≡ b
    → 0 < r.buffer_size
    → Fills r r.queue r.buffer s o
    → Polls r (pop_front s b).0 (ok (pop_front s b).1)
popped r s [] e pos v =
    let empty : view s ≡ [] = ground (arith, e, v.drained e pos) in
    (sym (view-filled r s v) ∙ empty, empty)
popped r s (t ∷ ts) e pos v = sym (view-filled r s v) ∙ ap (λ b. b ++ passing s s.queue) e

pop_filled-Polls :
    (r s : BufferedReceiver) (o : NetResult (Unit {0}))
    → 0 < r.buffer_size
    → Fills r r.queue r.buffer s o
    → Polls r (pop_filled (s, o)).0 (pop_filled (s, o)).1
pop_filled-Polls r s (ok _) pos v = popped r s s.buffer refl pos v
pop_filled-Polls r s (err e) pos v = (view-filled r s v, (v.closed e refl).0, (v.closed e refl).1)
pop_filled-Polls r s panics pos v = v.running refl

pub poll-Polls : (r : BufferedReceiver) → 0 < r.buffer_size → Polls r (poll r).0 (poll r).1
unfolding poll fill_buffer
poll-Polls r pos =
    let filled = fill_from r r.queue r.buffer in
    pop_filled-Polls r filled.0 filled.1 pos (fill_from-Fills r r.queue r.buffer)

buffered-Polls :
    (r : BufferedReceiver) (b : List Token)
    → r.buffer ≡ b
    → 0 < r.buffer_size
    → let (s, result) = buffered_or (λ x. x) poll r b in Polls r s result
buffered-Polls r [] e pos = poll-Polls r pos
buffered-Polls r (t ∷ ts) e pos = ap (λ b. b ++ passing r r.queue) e

-- In mode `NonBlocking` the receiver delivers the tokens that pass its filters in the order in which
-- they were sent, each once: `receive` returns the first one still to deliver, or nothing when there
-- is none. It fails only with error 4201, when no sender is left, and loses no token then. The buffer
-- has room for a token.
pub receive-Polls : (r : BufferedReceiver) → 0 < r.buffer_size → Polls r (receive r).0 (receive r).1
unfolding receive
receive-Polls r pos = buffered-Polls r r.buffer refl pos

-- `fill_buffer` never makes the buffer longer than the larger of its length before and `buffer_size`.
pub fill_buffer-bounded :
    (r : BufferedReceiver) → length (fill_buffer r).0.buffer ≤ max (length r.buffer) r.buffer_size
unfolding fill_buffer
fill_buffer-bounded r = (fill_from-Fills r r.queue r.buffer).bounded
