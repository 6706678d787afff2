-- ===== src/Protocol/Socks5/Requests.antt =====
-- src/protocol/parser.rs: the request of RFC 1928 as `parse_socks5_request` reads it.
use rust_socks.Prelude.{
  ℕ, ◌≡◌, refl, Bool, List, [], ◌∷◌, ◌++◌, length, arith, All, length-append, take-at, drop-at,
  append_assoc, subst, All-suffix, take-append-drop, length-take,
}
use rust_socks.Utils.{Outcome, ok, err, panic}
use rust_socks.Protocol.Types.{
  Address, ipv4, ipv6, domain, IsAddress, HasLengthByte, IsByte, Command, connect, bind,
  udp_associate, command_code, command_try_from, Socks5Request, socks_version, be_bytes,
}
use rust_socks.Protocol.Stream.{Stream, on, read_u16}
use rust_socks.Protocol.Socks5.{read_address, request_from, parse_socks5_request, address_bytes}

-- The request as RFC 1928 lays it out, with any value in the reserved byte.
unfoldable pub request_bytes : Socks5Request → ℕ → List ℕ
request_bytes r reserved =
    socks_version ∷ command_code r.command ∷ reserved ∷ (address_bytes r.address ++ be_bytes r.port)

pub address_code : Address → ℕ
address_code (ipv4 _) = 1
address_code (ipv6 _) = 4
address_code (domain _) = 3

pub address_body : Address → List ℕ
address_body (ipv4 octets) = octets
address_body (ipv6 octets) = octets
address_body (domain name) = length name ∷ name

pub address_bytes-parts : (a : Address) → address_bytes a ≡ address_code a ∷ address_body a
unfolding address_bytes address_code address_body
address_bytes-parts (ipv4 _) = refl
address_bytes-parts (ipv6 _) = refl
address_bytes-parts (domain _) = refl

pub command_try_from-code : (c : Command) → command_try_from (command_code c) ≡ ok c
unfolding command_try_from
command_try_from-code connect = refl
command_try_from-code bind = refl
command_try_from-code udp_associate = refl

module _ (out : List ℕ) (broken : Bool) where
  pub read_address-bytes :
      (a : Address) (rest : List ℕ)
      → IsAddress a
      → HasLengthByte a
      → read_address (address_code a) (on out broken (address_body a ++ rest))
        ≡ (ok a, on out broken rest)
  unfolding read_address address_code address_body
  read_address-bytes (ipv4 octets) rest w h =
      ground (arith, length-append octets rest, take-at octets rest 4, drop-at octets rest 4 0)
  read_address-bytes (ipv6 octets) rest w h =
      ground (arith, length-append octets rest, take-at octets rest 16, drop-at octets rest 16 0)
  read_address-bytes (domain name) rest w h = ground (
    arith,
    length-append name rest,
    take-at name rest (length name),
    drop-at name rest (length name) 0,
  )

  request_from-parts :
      (r : Socks5Request) (reserved : ℕ) (rest : List ℕ)
      → IsAddress r.address
      → HasLengthByte r.address
      → request_from
          (5 ∷ command_code r.command ∷ reserved ∷ address_code r.address ∷ [])
          (on out broken (address_body r.address ++ (be_bytes r.port ++ rest)))
        ≡ (ok r, on out broken rest)
  unfolding request_from
  request_from-parts r reserved rest w h = ground (
    arith,
    command_try_from-code r.command,
    read_address-bytes r.address (be_bytes r.port ++ rest) w h,
  )

  -- Whatever follows it on the stream, the encoding of a request parses to that request, and what
  -- follows is left: for an address of the right number of bytes, a name in UTF-8 of at most 255
  -- bytes.
  pub parse-request_bytes :
      (r : Socks5Request) (reserved : ℕ) (rest : List ℕ)
      → IsAddress r.address
      → HasLengthByte r.address
      → parse_socks5_request (on out broken (request_bytes r reserved ++ rest))
        ≡ (ok r, on out broken rest)
  unfolding parse_socks5_request request_bytes
  parse-request_bytes r reserved rest w h =
      rw (address_bytes-parts r.address, append_assoc)
        (ground (arith, request_from-parts r reserved rest w h))

-- What the parser takes from the stream, and that it writes nothing.
read_address-inv :
    (t : ℕ) (input : List ℕ) (s s' : Stream) (a : Address)
    → s.input ≡ input
    → read_address t s ≡ (ok a, s')
    → (t ∷ input ≡ address_bytes a ++ s'.input) × (s'.output ≡ s.output)
unfolding read_address address_bytes
read_address-inv t [] s s' a i h = ground (arith)
read_address-inv t (b ∷ xs) s s' a i h = ground (
  arith,
  take-append-drop 4 (b ∷ xs),
  take-append-drop 16 (b ∷ xs),
  take-append-drop b xs,
  length-take b xs,
)

read_u16-inv :
    (input : List ℕ) (s s' : Stream) (p : ℕ)
    → s.input ≡ input
    → All IsByte input
    → read_u16 s ≡ (ok p, s')
    → (input ≡ be_bytes p ++ s'.input) × (s'.output ≡ s.output)
unfolding read_u16
read_u16-inv [] s s' p i b h = ground arith
read_u16-inv (hi ∷ []) s s' p i b h = ground arith
read_u16-inv (hi ∷ lo ∷ xs) s s' p i b h = ground arith

command_try_from-inv : (b : ℕ) (c : Command) → command_try_from b ≡ ok c → b ≡ command_code c
unfolding command_try_from
command_try_from-inv b c h = ground arith

module _ (s s' : Stream) (r : Socks5Request) (v c reserved t : ℕ) (xs : List ℕ)
    (bytes : All IsByte xs) where
  after_address :
      (m : Outcome Address × Stream)
      → read_address t (record s { input = xs }) ≡ m
      → request_from (v ∷ c ∷ reserved ∷ t ∷ []) (record s { input = xs }) ≡ (ok r, s')
      → (v ∷ c ∷ reserved ∷ t ∷ xs ≡ request_bytes r reserved ++ s'.input) × (s'.output ≡ s.output)
  unfolding request_from request_bytes
  after_address (ok a, s1) e h =
      let (taken, kept) = read_address-inv t xs (record s { input = xs }) s1 a refl e in
      let rest_bytes : All IsByte s1.input =
        All-suffix IsByte (address_body a) s1.input
          (subst (All IsByte) (ground (arith, taken, address_bytes-parts a)) bytes) in
      ground (
        arith,
        command_try_from-inv c r.command,
        read_u16-inv s1.input s1 s' r.port refl rest_bytes,
        append_assoc (address_bytes a) (be_bytes r.port) s'.input,
      )
  after_address (err x, s1) e h = ground arith
  after_address (panic, s1) e h = ground arith

request_inv :
    (input : List ℕ) (s s' : Stream) (r : Socks5Request)
    → s.input ≡ input
    → All IsByte input
    → parse_socks5_request s ≡ (ok r, s')
    → (reserved : ℕ) × (input ≡ request_bytes r reserved ++ s'.input) × (s'.output ≡ s.output)
unfolding parse_socks5_request
request_inv [] s s' r i b h = ground arith
request_inv (_ ∷ []) s s' r i b h = ground arith
request_inv (_ ∷ _ ∷ []) s s' r i b h = ground arith
request_inv (_ ∷ _ ∷ _ ∷ []) s s' r i b h = ground arith
request_inv (v ∷ c ∷ reserved ∷ t ∷ xs) s s' r i b h =
    let (taken, kept) =
      after_address s s' r v c reserved t xs b.1.1.1.1 (read_address t (record s { input = xs }))
        refl (ground arith) in
    (reserved, taken, kept)

-- When a request is parsed off a stream of bytes, the stream began with its encoding, with some
-- reserved byte, the parser has taken just these bytes off the stream, and it has written nothing.
pub parse_socks5_request-inv :
    (s s' : Stream) (r : Socks5Request)
    → All IsByte s.input
    → parse_socks5_request s ≡ (ok r, s')
    → (reserved : ℕ) × (s.input ≡ request_bytes r reserved ++ s'.input) × (s'.output ≡ s.output)
parse_socks5_request-inv s s' r b h = request_inv s.input s s' r refl b h
