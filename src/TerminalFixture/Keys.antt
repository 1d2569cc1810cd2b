-- ===== src/TerminalFixture/Keys.antt =====
-- The marker's color follows the inputs that it counts.
use telar.Prelude.{◌∙◌, ℕ, ◌+◌, ◌%◌, ◌≡◌, true, List, [], ◌∷◌, count_if, ◌==◌, arith}
use telar.TerminalFixture.{Marker, press, press_all}

abbrev IsMatched : Marker → Type 0
IsMatched m = m.color ≡ m.marker_inputs % 2

press-IsMatched : (m : Marker) (key : ℕ) → IsMatched m → IsMatched (press m key)
unfolding press
press-IsMatched m key h = ground (arith, h)

press_all-IsMatched : (m : Marker) (keys : List ℕ) → IsMatched m → IsMatched (press_all m keys)
unfolding press_all
press_all-IsMatched m [] h = h
press_all-IsMatched m (key ∷ keys) h =
    press_all-IsMatched (press m key) keys (press-IsMatched m key h)

press-primary : (m : Marker) (key : ℕ) → (press m key).primary ≡ m.primary
unfolding press
press-primary m key = ground arith

press-counts :
    (m : Marker) (key : ℕ)
    → m.primary ≡ true
    → (press m key).marker_inputs ≡ m.marker_inputs + count_if (λ k. k == b'x') (key ∷ [])
unfolding press
press-counts m key h = ground (arith, h)

press_all-counts :
    (m : Marker) (keys : List ℕ)
    → m.primary ≡ true
    → (press_all m keys).marker_inputs ≡ m.marker_inputs + count_if (λ k. k == b'x') keys
unfolding press_all
press_all-counts m [] h = omega arith
press_all-counts m (key ∷ keys) h =
    ground
      (arith, press-counts m key h, press_all-counts (press m key) keys (press-primary m key ∙ h))

-- In the primary process, whatever the keys, the marker counts the `x` among them, and its color,
-- if it started at the parity of the count, stays at it.
pub press_all-marker :
    (m : Marker) (keys : List ℕ)
    → m.primary ≡ true
    → m.color ≡ m.marker_inputs % 2
    → ((press_all m keys).marker_inputs ≡ m.marker_inputs + count_if (λ k. k == b'x') keys)
      × ((press_all m keys).color ≡ (press_all m keys).marker_inputs % 2)
press_all-marker m keys h k = (press_all-counts m keys h, press_all-IsMatched m keys k)
