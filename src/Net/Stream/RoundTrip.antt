-- ===== src/Net/Stream/RoundTrip.antt =====
-- A stream that was created and arrives whole gives its data back.
use mathlib.Core.List.{Permᴰ}
use native.Mathlib.Nat.{div-le_self}
use bey.Base.{
  ℕ, suc, ◌+◌, ◌-◌, ◌/◌, ◌≤◌, ◌<◌, ◌≡◌, refl, sym, ap, ◌∙◌, true, List, [], ◌∷◌, ◌++◌, length,
  arith, HashMap, insert, All, String, u64_small, nat_eq,
}
use bey.Base.Errors.{ok}
use bey.Net.Stream.{
  StreamChunk, StreamMeta, StreamSession, transferring, data_block, new_session, start_chunk,
  data_chunk, end_chunk, data_chunks, send_meta, chunks, add_chunk, is_complete, get_data,
  create_send_stream, collect,
}
use bey.Net.Stream.Chunks.{concat-chunks, length-chunks}
use bey.Net.Stream.Arrival.{
  store, store-perm, collect-SameTable, collect-store, data_chunks-Distinct, All-perm,
}

-- A session that takes chunks one after the other; `clock n` is the time of the n-th.
unfoldable pub feed : (ℕ → ℕ) → ℕ → StreamSession → List StreamChunk → StreamSession
feed clock n s [] = s
feed clock n s (c ∷ cs) = feed clock (suc n) (add_chunk s c (clock n)).0 cs

abbrev pub IsData : StreamChunk → Type 0
IsData c = c.flag ≡ data_block

-- A session in transfer, by its metadata, its table and its count.
abbrev Holds : StreamMeta → HashMap ℕ (List ℕ) → ℕ → StreamSession → Type 0
Holds meta m k s =
    (s.meta ≡ meta) × (s.state ≡ transferring) × (s.received_chunks ≡ m) × (s.received_count ≡ k)

add_data :
    (meta : StreamMeta) (m : HashMap ℕ (List ℕ)) (k : ℕ) (s : StreamSession) (c : StreamChunk)
    (now : ℕ)
    → k + 1 < 18446744073709551616
    → IsData c
    → Holds meta m k s
    → Holds meta (insert c.chunk_index c.content m) (k + 1) (add_chunk s c now).0
unfolding add_chunk
add_data meta m k s c now b d h = ground (arith, ap (λ t. insert c.chunk_index c.content t) h.2)

feed_data :
    (clock : ℕ → ℕ) (n : ℕ) (ds rest : List StreamChunk) (meta : StreamMeta)
    (m : HashMap ℕ (List ℕ)) (k : ℕ) (s : StreamSession)
    → k + length ds < 18446744073709551616
    → All IsData ds
    → Holds meta m k s
    → (t : StreamSession) × (j : ℕ) × (feed clock n s (ds ++ rest) ≡ feed clock j t rest)
      × Holds meta (store ds m) (k + length ds) t
unfolding feed
feed_data clock n [] rest meta m k s b d h = (s, n, refl, ground arith)
feed_data clock n (c ∷ ds) rest meta m k s b d h =
    let (t, j, e, q) =
      feed_data clock (suc n) ds rest meta (insert c.chunk_index c.content m) (k + 1)
        (add_chunk s c (clock n)).0 (omega arith) d.1
        (add_data meta m k s c (clock n) (omega arith) d.0 h) in
    (t, j, e, ground arith)

-- The end of a stream completes a session that holds enough chunks.
end_completes :
    (meta : StreamMeta) (m : HashMap ℕ (List ℕ)) (k now : ℕ) (s : StreamSession) (id : String)
    (i : ℕ)
    → Holds meta m k s
    → meta.total_chunks ≤ k
    → let t = (add_chunk s (end_chunk id i) now).0 in
      (is_complete t ≡ true) × (get_data t ≡ collect m 0 meta.total_chunks [])
unfolding add_chunk end_chunk is_complete get_data
end_completes meta m k now s id i h le = ground arith

data_chunks-IsData : (id : String) (i : ℕ) (cs : List (List ℕ)) → All IsData (data_chunks id i cs)
unfolding data_chunks data_chunk
data_chunks-IsData id i [] = tt
data_chunks-IsData id i (c ∷ cs) = (refl, data_chunks-IsData id (suc i) cs)

length-data_chunks :
    (id : String) (i : ℕ) (cs : List (List ℕ)) → length (data_chunks id i cs) ≡ length cs
unfolding data_chunks
length-data_chunks id i [] = refl
length-data_chunks id i (c ∷ cs) = ap suc (length-data_chunks id (suc i) cs)

length-perm : {ds es : List StreamChunk} → Permᴰ ds es → length ds ≡ length es
length-perm Permᴰ.nil = refl
length-perm (Permᴰ.cons e p) = ap suc (length-perm p)
length-perm (Permᴰ.swap e f) = refl
length-perm (Permᴰ.trans p q) = length-perm p ∙ length-perm q

module _ (size : ℕ) (id : String) (bytes : List ℕ) (kind : String) where
  abbrev pub sent : List StreamChunk
  sent = data_chunks id 0 (chunks (length bytes) size bytes)

  abbrev pub meta : StreamMeta
  meta = send_meta size id bytes kind

  sent-length :
      1 ≤ size → length bytes + size < 18446744073709551616 → length sent ≡ meta.total_chunks
  unfolding send_meta
  sent-length h b =
      length-data_chunks id 0 (chunks (length bytes) size bytes)
      ∙ length-chunks (length bytes) size bytes h (omega arith)
      ∙ ap (λ n. n / size) (sym (u64_small (length bytes + size - 1) (omega arith)))

  sent-collect :
      {ds : List StreamChunk}
      → Permᴰ sent ds
      → 1 ≤ size
      → collect (store ds []) 0 (length (chunks (length bytes) size bytes)) [] ≡ ok bytes
  sent-collect {ds} p h =
      collect-SameTable (store ds []) (store sent []) 0 _ [] (λ j. sym (
        store-perm p (data_chunks-Distinct id 0 (chunks (length bytes) size bytes)) [] []
          (λ i. refl) j))
      ∙ collect-store id 0 (chunks (length bytes) size bytes) [] []
      ∙ ap ok (concat-chunks (length bytes) size bytes h (omega arith))

  created :
      1 ≤ size
      → create_send_stream size id bytes kind
        ≡ ok (start_chunk id meta ∷ (sent ++ end_chunk id meta.total_chunks ∷ []))
  unfolding create_send_stream
  created h = ground arith

  started :
      (now c l : ℕ)
      → Holds meta [] 0 (add_chunk (new_session id meta c l) (start_chunk id meta) now).0
  unfolding add_chunk new_session start_chunk
  started now c l = (refl, refl, refl, refl)

  arrived :
      (clock : ℕ → ℕ) (s : StreamSession) {ds : List StreamChunk}
      → Permᴰ sent ds
      → 1 ≤ size
      → length bytes + size < 18446744073709551616
      → Holds meta [] 0 s
      → let t = feed clock 1 s (ds ++ end_chunk id meta.total_chunks ∷ []) in
        (is_complete t ≡ true) × (get_data t ≡ ok bytes)
  unfolding feed
  arrived clock s {ds} p h b v =
      let n = sent-length h b in
      let few = length-chunks (length bytes) size bytes h (omega arith) in
      let least = div-le_self (length bytes + size - 1) size in
      let whole = length-perm p in
      let small = length-data_chunks id 0 (chunks (length bytes) size bytes) in
      let (t, j, e, q) =
        feed_data clock 1 ds (end_chunk id meta.total_chunks ∷ []) meta [] 0 s (omega (arith, few))
          (All-perm IsData p (data_chunks-IsData id 0 (chunks (length bytes) size bytes))) v in
      let (done, got) =
        end_completes meta (store ds []) (length ds) (clock j) t id meta.total_chunks
          (q.0, q.1, q.2, omega (arith, q.3)) (omega (arith, n, whole)) in
      rw e (done, got ∙ ap (λ k. collect (store ds []) 0 k []) (sym n ∙ small) ∙ sent-collect p h)

  -- For a positive chunk size `create_send_stream` makes a start chunk, the data chunks and an end
  -- chunk. A new session that takes the start, the data chunks in any order and the end is complete,
  -- and `get_data` gives back the bytes that were sent. Lengths are below 2 ^ 64.
  pub session-round_trip :
      (clock : ℕ → ℕ) (c l : ℕ) {ds : List StreamChunk}
      → Permᴰ sent ds
      → 1 ≤ size
      → length bytes + size < 18446744073709551616
      → let s =
          feed clock 0
            (new_session id meta c l)
            (start_chunk id meta ∷ (ds ++ end_chunk id meta.total_chunks ∷ [])) in
        (create_send_stream size id bytes kind
          ≡ ok (start_chunk id meta ∷ (sent ++ end_chunk id meta.total_chunks ∷ [])))
        × (is_complete s ≡ true)
        × (get_data s ≡ ok bytes)
  unfolding feed
  session-round_trip clock c l p h b =
      let (done, got) =
        arrived clock (add_chunk (new_session id meta c l) (start_chunk id meta) (clock 0)).0 p h b
          (started (clock 0) c l) in
      (created h, done, got)
