-- ===== src/Net/Stream/Tests.antt =====
-- The theorems about streams at concrete inputs.
use mathlib.Core.List.{Permᴰ}
use bey.Base.{ℕ, ◌≡◌, refl, true, List, [], ◌∷◌, ◌++◌, arith, All, string_eq}
use bey.Base.Errors.{ok}
use bey.Net.Stream.{
  StreamChunk, StreamSession, transferring, start_chunk, data_chunk, end_chunk, new_session,
  is_complete, get_data, create_send_stream, data_chunks, chunks,
}
use bey.Net.Stream.RoundTrip.{feed}
use bey.Net.Stream.RoundTrip.{sent, meta, session-round_trip}
use bey.Net.Stream.Manager.{Sessions}
use bey.Net.Stream.Manager.Delivery.{Arrival, IsBare, results, handle_chunk-IsBare}

abbrev five : List ℕ
five = 1 ∷ 2 ∷ 3 ∷ 4 ∷ 5 ∷ []

-- The last two of the three data chunks change places.
abbrev mixed : List StreamChunk
mixed =
    data_chunk "s" 0 (1 ∷ 2 ∷ []) ∷ data_chunk "s" 2 (5 ∷ []) ∷ data_chunk "s" 1 (3 ∷ 4 ∷ []) ∷ []

sent_mixed : Permᴰ (sent 2 "s" five "file") mixed
unfolding data_chunks chunks
sent_mixed = Permᴰ.cons refl (Permᴰ.swap refl refl)

session-round_trip_example :
    let m = meta 2 "s" five "file" in
    let s =
      feed
        (λ n. n)
        0
        (new_session "s" m 0 0)
        (start_chunk "s" m ∷ (mixed ++ end_chunk "s" m.total_chunks ∷ [])) in
    (create_send_stream 2 "s" five "file"
      ≡ ok (start_chunk "s" m ∷ (sent 2 "s" five "file" ++ end_chunk "s" m.total_chunks ∷ [])))
    × (is_complete s ≡ true)
    × (get_data s ≡ ok five)
session-round_trip_example =
    session-round_trip 2 "s" five "file" (λ n. n) 0 0 sent_mixed (omega arith) (omega arith)

abbrev arrivals : List Arrival
arrivals =
    record { chunk = start_chunk "s" (meta 2 "s" five "file"); created = 1; now = 2 }
    ∷ record { chunk = data_chunk "s" 0 (1 ∷ 2 ∷ []); created = 3; now = 4 }
    ∷ record { chunk = end_chunk "s" 3; created = 5; now = 6 }
    ∷ []

handle_chunk-IsBare_example : All IsBare (results [] arrivals)
handle_chunk-IsBare_example = handle_chunk-IsBare arrivals

abbrev session_at : ℕ → StreamSession
session_at last_active = record {
  stream_id = "s";
  meta = meta 2 "s" five "file";
  state = transferring;
  received_chunks = [];
  received_count = 0;
  created_at = 0;
  last_active = last_active;
}

abbrev table : Sessions
table = ("s", session_at 0) ∷ ("t", session_at 9000000000) ∷ []
