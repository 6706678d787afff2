-- ===== src/Protocol/Stream.antt =====
-- The client's side of a connection, as the handshake code sees it: the bytes that the client sends
-- before it closes, the bytes that were written to it, and whether writing fails.
-- A step takes the stream and returns what it ends in and the stream that is left.
use rust_socks.Prelude.{
  ℕ, Bool, true, false, List, [], ◌∷◌, ◌++◌, length, take, drop, leb, if◌then◌else◌, Option, none,
  some,
}
use rust_socks.Utils.{Outcome, ok, err, panic, RustSocksError, io, unexpected_eof, broken_pipe}
use rust_socks.Protocol.Types.{from_be_bytes}

pub record Stream : Type 0 where
  pub input : List ℕ
  pub output : List ℕ
  pub broken : Bool

-- A stream with the given output, whose input is still to be read.
abbrev pub on : List ℕ → Bool → List ℕ → Stream
on output broken input = record { input = input; output = output; broken = broken }

abbrev pub Io {ℓ} : Type ℓ → Type ℓ
Io A = Stream → Outcome A × Stream

abbrev pub and_then {ℓ κ} :
    {A : Type ℓ} {B : Type κ} → Outcome A × Stream → (A → Io B) → Outcome B × Stream
and_then (ok a, s) f = f a s
and_then (err e, s) f = (err e, s)
and_then (panic, s) f = (panic, s)

infixl 5 ◌>>=◌ ◌>>◌
abbrev pub ◌>>=◌ {ℓ κ} : {A : Type ℓ} {B : Type κ} → Io A → (A → Io B) → Io B
◌>>=◌ m f s = and_then (m s) f

abbrev pub ◌>>◌ {ℓ} : {B : Type ℓ} → Io (Unit {0}) → Io B → Io B
m >> k = m >>= λ _. k

abbrev pub pure {ℓ} : {A : Type ℓ} → A → Io A
pure a s = (ok a, s)

-- `?` on a result that does not touch the stream
abbrev pub lift {ℓ} : {A : Type ℓ} → Outcome A → Io A
lift r s = (r, s)

abbrev pub fail {ℓ} : {A : Type ℓ} → RustSocksError → Io A
fail e s = (err e, s)

abbrev pub require : Bool → RustSocksError → Io (Unit {0})
require true e = pure tt
require false e = fail e

-- `ok_or` and `map_err` on a result without a value of its own
abbrev pub or_fail {ℓ} : {A : Type ℓ} → Option A → RustSocksError → Io A
or_fail none e = fail e
or_fail (some a) e = pure a

read_first : List ℕ → Io ℕ
read_first [] s = (err (io unexpected_eof), s)
read_first (b ∷ rest) s = (ok b, record s { input = rest })

-- `AsyncReadExt::read_u8`
unfoldable pub read_u8 : Io ℕ
unfolding read_first
read_u8 s = read_first s.input s

-- `AsyncReadExt::read_u16`
unfoldable pub read_u16 : Io ℕ
unfolding read_u8
read_u16 = do hi ← read_u8; lo ← read_u8; pure (from_be_bytes hi lo)

-- `AsyncReadExt::read_exact`; at the end of the input the bytes before it are gone.
unfoldable pub read_exact : ℕ → Io (List ℕ)
read_exact n s =
    if leb n (length s.input)
    then (ok (take n s.input), record s { input = drop n s.input })
    else (err (io unexpected_eof), record s { input = [] })

-- `AsyncWriteExt::write_all`
unfoldable pub write_all : List ℕ → Io (Unit {0})
write_all bytes s =
    if s.broken then (err (io broken_pipe), s) else (ok tt, record s { output = s.output ++ bytes })

-- `AsyncWriteExt::flush`
unfoldable pub flush : Io (Unit {0})
flush s = if s.broken then (err (io broken_pipe), s) else (ok tt, s)
