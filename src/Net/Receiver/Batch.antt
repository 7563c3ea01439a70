-- ===== src/Net/Receiver/Batch.antt =====
-- What `receive_batch` returns, and what it loses when the channel is closed.
use mathlib.Core.List.{append-nil, append_assoc}
use bey.Base.{
  ℕ, ◌+◌, ◌≤◌, ◌<◌, ◌≡◌, refl, false, List, [], ◌∷◌, ◌++◌, length, length-append, arith, Bool-cases,
  inl, inr, lt→ltb, take_all, drop_all,
}
use bey.Base.Errors.{NetResult, ok, err, panics}
use bey.Net.Token.{Token}
use bey.Net.Receiver.{
  BufferedReceiver, apply_filters, fill_from, fill_buffer, channel_closed, receive, receive_batch,
  poll,
}
use bey.Net.Receiver.Fifo.{passing, view}

-- What is left of a closed channel ends in the buffer, and `fill_buffer` fails.
fill_from-closed :
    (r : BufferedReceiver) (queue buffer : List Token)
    → r.has_senders ≡ false
    → length buffer + length (passing r queue) < r.buffer_size
    → fill_from r queue buffer
      ≡ (record r { queue = []; buffer = buffer ++ passing r queue }, err channel_closed)
unfolding fill_from
fill_from-closed r [] buffer c b = ground (arith, append-nil buffer)
fill_from-closed r (t ∷ queue) buffer c b = elim (Bool-cases (apply_filters r.filters t)) [
  | inl keep ↦ ground (
    arith,
    keep,
    length-append buffer (t ∷ []),
    append_assoc buffer (t ∷ []) (passing r queue),
    fill_from-closed r queue (buffer ++ t ∷ []) c,
  )
  | inr skip ↦ ground (arith, skip, fill_from-closed r queue buffer c)
]

-- On a channel that no sender is left on, `receive` with an empty buffer fails although tokens that
-- pass the filters are there: it moves them all to the buffer and returns error 4201.
pub receive-closed :
    (r : BufferedReceiver)
    → r.has_senders ≡ false
    → r.buffer ≡ []
    → length (passing r r.queue) < r.buffer_size
    → let (s, result) = receive r in (result ≡ err channel_closed) × (s.buffer ≡ passing r r.queue)
unfolding receive poll fill_buffer
receive-closed r c e b = ground (arith, fill_from-closed r r.queue [] c)

-- On such a channel `receive_batch` loses tokens: when it asks for more than the buffer holds it
-- returns error 4201, and every token that the buffer held is gone.
pub receive_batch-closed :
    (r : BufferedReceiver) (max_count : ℕ)
    → r.has_senders ≡ false
    → length r.buffer < max_count
    → length (passing r r.queue) < r.buffer_size
    → let (s, result) = receive_batch r max_count in
      (result ≡ err channel_closed) × (view s ≡ passing r r.queue)
unfolding receive_batch fill_buffer
receive_batch-closed r max_count c m b =
    rw
      (
        take_all max_count r.buffer (omega (arith, m)),
        drop_all max_count r.buffer (omega (arith, m)),
        lt→ltb (length r.buffer) max_count m,
        fill_from-closed (record r { buffer = [] }) r.queue [] c (omega (arith, b)),
      )
      (refl, append-nil (passing r r.queue))

-- What `receive_batch` on `r` leaves and returns while senders are left.
abbrev pub Batches : ℕ → BufferedReceiver → BufferedReceiver → NetResult (List Token) → Type 0
Batches n r s (ok tokens) = (tokens ++ view s ≡ view r) × (length tokens ≤ n)
Batches n r s (err e) = ⊥
Batches n r s panics = ⊥
