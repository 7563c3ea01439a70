-- ===== src/Net/Receiver/Tests.antt =====
-- The theorems about the receiver at concrete inputs.
use bey.Base.{◌<◌, true, false, List, [], ◌∷◌, arith, length}
use bey.Net.Token.{Token, low, normal, high}
use bey.Net.Token.Tests.{token_of}
use bey.Net.Receiver.{BufferedReceiver, Pause, receive, priority_filter}
use bey.Net.Receiver.Fifo.{Polls, passing, receive-Polls}

abbrev three : List Token
three = token_of "a" normal ∷ token_of "b" low ∷ token_of "c" high ∷ []

-- A filter lets `normal` and above through.
abbrev open_one : BufferedReceiver
open_one = record {
  buffer = [];
  buffer_size = 10;
  queue = three;
  has_senders = true;
  filters = priority_filter normal ∷ [];
}

abbrev closed_one : BufferedReceiver
closed_one = record open_one { has_senders = false }

fits : length (passing closed_one closed_one.queue) < 10
unfolding priority_filter
fits = ground arith

receive-Polls_example : Polls open_one (receive open_one).0 (receive open_one).1
receive-Polls_example = receive-Polls open_one (omega arith)

abbrev holding : BufferedReceiver
holding = record closed_one { buffer = token_of "d" high ∷ [] }

abbrev silent_one : BufferedReceiver
silent_one = record open_one { queue = token_of "b" low ∷ [] }

-- Nothing that passes at first, and a token later.
abbrev schedule : List Pause
schedule =
    record { arrivals = []; leaves = false; now = 10 }
    ∷ record { arrivals = token_of "e" high ∷ []; leaves = false; now = 20 }
    ∷ []
