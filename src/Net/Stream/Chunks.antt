-- ===== src/Net/Stream/Chunks.antt =====
-- Cutting data into chunks: nothing is lost, and there are as many chunks as the code announces.
use native.Mathlib.Nat.{add-div_right, div-eq_of_lt}
use native.Mathlib.Decide.{dec_le}
use mathlib.Core.Path.{◌≡⟨◌⟩◌, ◌∎}
use bey.Base.{
  ℕ, zero, suc, ◌+◌, ◌-◌, ◌/◌, ◌≤◌, ◌≡◌, refl, sym, ap, ◌∙◌, List, [], ◌∷◌, ◌++◌, drop, length,
  take-append-drop, length-drop, arith,
}
use bey.Net.Stream.{chunks}

abbrev pub concat : List (List ℕ) → List ℕ
concat [] = []
concat (c ∷ cs) = c ++ concat cs

pub concat-chunks :
    (fuel size : ℕ) (xs : List ℕ) → 1 ≤ size → length xs ≤ fuel → concat (chunks fuel size xs) ≡ xs
unfolding chunks
concat-chunks zero size [] h k = refl
concat-chunks zero size (x ∷ xs) h k = absurd (omega arith)
concat-chunks (suc fuel) size [] h k = refl
concat-chunks (suc fuel) size (x ∷ xs) h k =
    let rest =
      concat-chunks fuel size (drop size (x ∷ xs)) h (omega (arith, length-drop size (x ∷ xs))) in
    rw rest (take-append-drop size (x ∷ xs))

-- What a chunk of `size` leaves of `n + 1` bytes, rounded up.
rounded : (n size : ℕ) → 1 ≤ size → ((suc n - size) + size - 1) / size ≡ n / size
rounded n size h = elim (dec_le size (suc n)) [
  | yes fits ↦ ap (λ k. k / size) (omega arith)
  | no short ↦ div-eq_of_lt (omega arith) ∙ sym (div-eq_of_lt (omega arith))
]

pub length-chunks :
    (fuel size : ℕ) (xs : List ℕ)
    → 1 ≤ size
    → length xs ≤ fuel
    → length (chunks fuel size xs) ≡ (length xs + size - 1) / size
unfolding chunks
length-chunks zero size [] h k = sym (div-eq_of_lt (omega arith))
length-chunks zero size (x ∷ xs) h k = absurd (omega arith)
length-chunks (suc fuel) size [] h k = sym (div-eq_of_lt (omega arith))
length-chunks (suc fuel) size (x ∷ xs) h k =
    let left = length-drop size (x ∷ xs) in
    let rest = length-chunks fuel size (drop size (x ∷ xs)) h (omega (arith, left)) in
    suc (length (chunks fuel size (drop size (x ∷ xs))))
    ≡⟨ ap suc (rest ∙ ap (λ k. (k + size - 1) / size) left ∙ rounded (length xs) size h) ⟩
      suc (length xs / size)
    ≡⟨ omega (arith, add-div_right (length xs) h) ⟩ (length xs + size) / size
    ≡⟨ ap (λ k. k / size) (omega arith) ⟩ (suc (length xs) + size - 1) / size ∎
