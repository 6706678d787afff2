-- ===== src/Protocol/Socks4/Requests.antt =====
-- src/protocol/parser.rs: the request of SOCKS4 and SOCKS4a as `parse_socks4_request` reads it.
use rust_socks.Prelude.{
  ℕ, ◌+◌, ◌<◌, ◌≤◌, ◌≡◌, Bool, true, false, List, [], ◌∷◌, ◌++◌, length, All, arith, length-append,
  append_assoc, append-nil, ◌==◌, inl, inr, Bool-cases,
}
use rust_socks.Prelude.Text.{Text, is_utf8}
use rust_socks.Utils.{ok, err, protocol, socks4_field_too_long}
use rust_socks.Protocol.Types.{Command, command_code, be_bytes, ipv4, domain}
use rust_socks.Protocol.Socks5.Requests.{command_try_from-code}
use rust_socks.Protocol.Stream.{on, Stream}
use rust_socks.Protocol.Socks4.{
  scan_null, non_empty, is_socks4a, read_null_terminated_string, read_socks4_address,
  parse_socks4_request,
}

abbrev pub IsNonzero : ℕ → Type 0
IsNonzero b = 0 < b

-- The field is read up to its zero byte if it has at most 255 bytes, and refused otherwise.
scan_null-field :
    (acc field rest : List ℕ)
    → All IsNonzero field
    → length acc + length field ≤ 255
    → scan_null acc (field ++ 0 ∷ rest) ≡ (ok (acc ++ field), rest)
unfolding scan_null
scan_null-field acc [] rest z h = ground (arith, append-nil acc)
scan_null-field acc (b ∷ field) rest z h = ground (
  arith,
  scan_null-field (acc ++ b ∷ []) field rest z.1,
  length-append acc (b ∷ []),
  append_assoc acc (b ∷ []) field,
)

scan_null-too_long :
    (acc field rest : List ℕ)
    → All IsNonzero field
    → length acc ≤ 255
    → 255 < length acc + length field
    → (scan_null acc (field ++ rest)).0 ≡ err (protocol socks4_field_too_long)
unfolding scan_null
scan_null-too_long acc [] rest z l h = absurd (omega arith)
scan_null-too_long acc (b ∷ field) rest z l h =
    ground (arith, scan_null-too_long (acc ++ b ∷ []) field rest z.1, length-append acc (b ∷ []))

scan_null-inv :
    (acc input bytes rest : List ℕ)
    → length acc ≤ 255
    → scan_null acc input ≡ (ok bytes, rest)
    → (field : List ℕ) × (bytes ≡ acc ++ field) × (input ≡ field ++ 0 ∷ rest) × (length bytes ≤ 255)
unfolding scan_null
scan_null-inv acc [] bytes rest l h = cc
scan_null-inv acc (b ∷ input) bytes rest l h = elim (Bool-cases (b == 0)) [
  | inl end ↦ ([], ground (arith, append-nil acc), ground arith, ground arith)
  | inr more ↦
      let (field, e, f, g) =
        scan_null-inv (acc ++ b ∷ []) input bytes rest (ground (arith, length-append acc (b ∷ [])))
          (ground arith) in
      (b ∷ field, ground (arith, append_assoc acc (b ∷ []) field), ground arith, g)
]

-- A field that is read has at most 255 bytes, which are UTF-8, and just these and the zero byte
-- behind them are taken off the stream.
pub read_null_terminated_string-inv :
    (s s' : Stream) (field : Text)
    → read_null_terminated_string s ≡ (ok field, s')
    → (s.input ≡ field ++ 0 ∷ s'.input) × (length field ≤ 255) × (is_utf8 field ≡ true)
unfolding read_null_terminated_string
read_null_terminated_string-inv s s' field h =
    let (bytes, e, f, g) = scan_null-inv [] s.input field s'.input (omega arith) (ground arith) in
    (ground arith, ground arith, ground arith)

-- A field of more than 255 bytes without a zero byte is refused, whatever follows.
pub read_null_terminated_string-too_long :
    (s : Stream) (field rest : List ℕ)
    → All IsNonzero field
    → 255 < length field
    → s.input ≡ field ++ rest
    → (read_null_terminated_string s).0 ≡ err (protocol socks4_field_too_long)
unfolding read_null_terminated_string
read_null_terminated_string-too_long s field rest z h e =
    ground (arith, scan_null-too_long [] field rest z)

module _ (out : List ℕ) (broken : Bool) where
  -- A field with its zero byte is read back, as a string in UTF-8 of at most 255 bytes.
  read-field :
      (field rest : List ℕ)
      → All IsNonzero field
      → length field ≤ 255
      → is_utf8 field ≡ true
      → read_null_terminated_string (on out broken (field ++ 0 ∷ rest))
        ≡ (ok field, on out broken rest)
  unfolding read_null_terminated_string
  read-field field rest z h u = ground (arith, scan_null-field [] field rest z)

  -- The first eight bytes of a request and the user id behind them.
  abbrev head_bytes : Command → ℕ → List ℕ → Text → List ℕ → List ℕ
  head_bytes c port ip user rest = command_code c ∷ (be_bytes port ++ (ip ++ (user ++ 0 ∷ rest)))

  -- A request of SOCKS4a, with the address 0.0.0.x for an x above 0, a user id and a name that is
  -- not empty, both of at most 255 bytes in UTF-8 without a zero byte, is read back with that name
  -- as its address, and what follows it stays on the stream.
  pub parse-socks4a :
      (c : Command) (port x : ℕ) (user name rest : List ℕ)
      → 0 < x
      → All IsNonzero user
      → length user ≤ 255
      → is_utf8 user ≡ true
      → All IsNonzero name
      → 0 < length name
      → length name ≤ 255
      → is_utf8 name ≡ true
      → parse_socks4_request
          (on out broken (head_bytes c port (0 ∷ 0 ∷ 0 ∷ x ∷ []) user (name ++ 0 ∷ rest)))
        ≡ (
          ok (record { command = c; address = domain name; port = port; user_id = non_empty user }),
          on out broken rest,
        )
  unfolding parse_socks4_request read_socks4_address is_socks4a
  parse-socks4a c port x user [] rest hx zu lu uu zn sn ln un = absurd (omega arith)
  parse-socks4a c port x user (b ∷ name) rest hx zu lu uu zn sn ln un = ground (
    arith,
    command_try_from-code c,
    read-field user ((b ∷ name) ++ 0 ∷ rest) zu lu uu,
    read-field (b ∷ name) rest zn ln un,
  )

  -- A request with an address that does not mark SOCKS4a, and a user id of at most 255 bytes in
  -- UTF-8 without a zero byte, is read back with that address, and what follows it stays on the
  -- stream.
  pub parse-socks4 :
      (c : Command) (port x y z w : ℕ) (user rest : List ℕ)
      → is_socks4a (x ∷ y ∷ z ∷ w ∷ []) ≡ ok false
      → All IsNonzero user
      → length user ≤ 255
      → is_utf8 user ≡ true
      → parse_socks4_request (on out broken (head_bytes c port (x ∷ y ∷ z ∷ w ∷ []) user rest)) ≡ (
        ok (record {
          command = c;
          address = ipv4 (x ∷ y ∷ z ∷ w ∷ []);
          port = port;
          user_id = non_empty user;
        }),
        on out broken rest,
      )
  unfolding parse_socks4_request read_socks4_address
  parse-socks4 c port x y z w user rest plain zu lu uu =
      ground (arith, command_try_from-code c, read-field user rest zu lu uu)
