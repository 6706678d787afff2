-- ===== src/Prelude/Decimal.antt =====
-- The decimal text of an unsigned number, as `Display` prints it.
use Prim.Native.Nat.{ℕ, zero, suc, ◌+◌, ◌/◌, ◌%◌}
use mathlib.Core.List.{[], ◌∷◌}
use rust_socks.Prelude.Tests.{if◌then◌else◌, ◌==◌}
use rust_socks.Prelude.Text.{Text}

-- At most so many digits, before a text.
unfoldable pub print_from : ℕ → ℕ → Text → Text
print_from zero n tail = tail
print_from (suc f) n tail =
    let rest = print_from f (n / 10) ((b'0' + n % 10) ∷ tail) in
    if n / 10 == 0 then (b'0' + n % 10) ∷ tail else rest

-- A `usize` has at most twenty digits.
abbrev pub usize_text : ℕ → Text
usize_text n = print_from 20 n []
