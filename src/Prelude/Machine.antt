-- ===== src/Prelude/Machine.antt =====
-- The arithmetic of `u64`, `usize` and of the atomic counters, on 64-bit words.
use Prim.Native.Nat.{ℕ, ◌+◌, ◌-◌, ◌%◌, min}

abbrev pub word : ℕ
word = 18446744073709551616

-- `fetch_add` and `fetch_sub`, and the operators of a release build, which wrap around.
abbrev pub wrapping_add : ℕ → ℕ → ℕ
wrapping_add a b = (a + b) % word

abbrev pub wrapping_sub : ℕ → ℕ → ℕ
wrapping_sub a b = (a + (word - b)) % word

abbrev pub saturating_add : ℕ → ℕ → ℕ
saturating_add a b = min (a + b) (word - 1)

-- `saturating_sub` stops at 0, as the subtraction of natural numbers does.
abbrev pub saturating_sub : ℕ → ℕ → ℕ
saturating_sub a b = a - b
