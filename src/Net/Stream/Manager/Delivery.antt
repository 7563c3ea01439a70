-- ===== src/Net/Stream/Manager/Delivery.antt =====
-- What the stream manager delivers.
use bey.Base.{
  ap, ℕ, ◌≡◌, refl, Bool, true, false, Bool-cases, inl, inr, Option, none, some, List, [], ◌∷◌,
  arith, All, lookup, string_eq, insert-All, remove-All, lookup-All, String,
}
use bey.Base.Errors.{NetResult, ok, err, panics}
use bey.Net.Stream.{
  StreamSession, StreamChunk, StreamMeta, StreamFlag, start, add_chunk, add_by_flag, is_complete,
  get_data, collect, new_session, is_transferring,
}
use bey.Net.Stream.Manager.{
  Sessions, handle_chunk, by_flag, open_session, continue_session, after_add,
}

-- A session that has taken no data, and takes none.
abbrev pub IsIdle : String × StreamSession → Type 0
IsIdle (id, s) = (is_transferring s.state ≡ false) × (s.received_count ≡ 0)

-- A result that carries no bytes.
abbrev pub IsBare : NetResult (Option (List ℕ)) → Type 0
IsBare (ok (some bytes)) = bytes ≡ []
IsBare _ = Unit

abbrev Keeps : Sessions × NetResult (Option (List ℕ)) → Type 0
Keeps r = All IsIdle r.0 × IsBare r.1

get_data-idle :
    (id : String) (s : StreamSession) → IsIdle (id, s) → is_complete s ≡ true → get_data s ≡ ok []
unfolding get_data is_complete collect
get_data-idle id s i h =
    let none_due : s.meta.total_chunks ≡ 0 = ground arith in ground (arith, none_due)

abbrev is_start : StreamFlag → Bool
is_start start = true
is_start _ = false

-- A session that is idle stays so through every chunk but a start chunk.
add-IsIdle :
    (id : String) (s : StreamSession) (flag : StreamFlag) (chunk : StreamChunk) (now : ℕ)
    → (is_start flag ≡ false)
    → IsIdle (id, s)
    → IsIdle (id, (add_by_flag flag s chunk now).0)
add-IsIdle id s start chunk now f i = cc
add-IsIdle id s _ chunk now f i = ground arith

after_add-Keeps :
    (m : Sessions) (id : String) (s : StreamSession) (r : NetResult (Unit {0}))
    → All IsIdle m
    → IsIdle (id, s)
    → Keeps (after_add m id (s, r))
after_add-Keeps m id s (err e) a i = (insert-All IsIdle id s m i a, tt)
after_add-Keeps m id s panics a i = (insert-All IsIdle id s m i a, tt)
after_add-Keeps m id s (ok _) a i = elim (Bool-cases (is_complete s)) [
  | inl done ↦
      rw (done, get_data-idle id s i done)
        (remove-All IsIdle id _ (insert-All IsIdle id s m i a), refl)
  | inr more ↦ rw more (insert-All IsIdle id s m i a, tt)
]

continue-Keeps :
    (m : Sessions) (chunk : StreamChunk) (now : ℕ) (o : Option StreamSession)
    → is_start chunk.flag ≡ false
    → lookup chunk.stream_id m ≡ o
    → All IsIdle m
    → Keeps (continue_session m chunk now o)
unfolding add_chunk
continue-Keeps m chunk now none f e a = (a, tt)
continue-Keeps m chunk now (some s) f e a =
    let (j, i) = lookup-All IsIdle chunk.stream_id s m a e in
    let r = add_by_flag chunk.flag s chunk now in
    after_add-Keeps m chunk.stream_id r.0 r.1 a (add-IsIdle j s chunk.flag chunk now f i)

open-Keeps :
    (m : Sessions) (chunk : StreamChunk) (created now : ℕ) (o : Option StreamMeta)
    → All IsIdle m
    → All IsIdle (open_session m chunk created now o)
unfolding new_session
open-Keeps m chunk created now none a = a
open-Keeps m chunk created now (some meta) a =
    insert-All IsIdle chunk.stream_id (new_session chunk.stream_id meta created now) m (refl, refl)
      a

by_flag-Keeps :
    (f : StreamFlag) (m : Sessions) (chunk : StreamChunk) (created now : ℕ)
    → chunk.flag ≡ f
    → All IsIdle m
    → Keeps (by_flag f m chunk created now)
by_flag-Keeps start m chunk created now e a = (open-Keeps m chunk created now chunk.meta a, tt)
by_flag-Keeps f m chunk created now e a =
    continue-Keeps m chunk now (lookup chunk.stream_id m) (ap is_start e) refl a

-- The chunks that a manager is given, each with the clock's readings.
pub record Arrival : Type 0 where
  pub chunk : StreamChunk
  pub created : ℕ
  pub now : ℕ

abbrev pub handle : Sessions → Arrival → Sessions × NetResult (Option (List ℕ))
handle m a = handle_chunk m a.chunk a.created a.now

-- The answers to the chunks, in order.
unfoldable pub results : Sessions → List Arrival → List (NetResult (Option (List ℕ)))
results m [] = []
results m (a ∷ xs) = (handle m a).1 ∷ results (handle m a).0 xs

results-IsBare : (m : Sessions) (xs : List Arrival) → All IsIdle m → All IsBare (results m xs)
unfolding results handle_chunk
results-IsBare m [] a = tt
results-IsBare m (x ∷ xs) a =
    let k = by_flag-Keeps x.chunk.flag m x.chunk x.created x.now refl a in
    (k.1, results-IsBare (handle m x).0 xs k.0)

-- Whatever chunks a new manager is given, in whatever order, `handle_chunk` never delivers a byte: a
-- start chunk opens a session that is not transferring, and such a session takes no data.
pub handle_chunk-IsBare : (xs : List Arrival) → All IsBare (results [] xs)
handle_chunk-IsBare xs = results-IsBare [] xs tt
