-- ===== src/Io/Socket/Address.antt =====
-- The addresses of lib/include/socket.hpp. What `inet_pton` and `getaddrinfo` give is an argument. A host
-- is the bytes of its `in_addr` or `in6_addr`.
use coroutine_http_server.Prelude.{
  ℕ, zero, suc, ◌+◌, ◌*◌, ◌/◌, ◌%◌, ◌^◌, [], ◌∷◌, ◌++◌, ◌==◌, ◌≡◌, refl, ap, arith, if◌then◌else◌,
  Bytes, length, take, replicate, length-append, length-replicate, ◌∙◌,
}
use coroutine_http_server.Prelude.Result.{Result, ok, throws, syscall_error}

pub data IpAddress : Type 0 where
  in_addr : Bytes → IpAddress
  in6_addr : Bytes → IpAddress

-- `inet_pton` parses the text, does not, or gives -1.
pub data Parsed : Type 0 where
  parsed : Bytes → Parsed
  unparsed : Parsed
  failed : Parsed

-- `getaddrinfo` fails, or gives a list, of which the code reads the first element: an `AF_INET` address or
-- one of another family.
pub data Resolved : Type 0 where
  unresolved : Resolved
  no_result : Resolved
  inet : Bytes → Resolved
  other : Bytes → Resolved

-- `ip_address` of a domain
unfoldable pub resolve : Resolved → Result IpAddress
resolve unresolved = throws (syscall_error "getaddrinfo")
resolve no_result = throws (syscall_error "didn't get a result from getaddrinfo")
resolve (inet addr) = ok (in_addr addr)
resolve (other addr) = ok (in6_addr addr)

-- `ip_address`, with what `inet_pton` gives for `AF_INET` and for `AF_INET6`, and `getaddrinfo`.
unfoldable pub ip_address : Parsed → Parsed → Resolved → Result IpAddress
unfolding resolve
ip_address (parsed addr) pton6 found = ok (in_addr addr)
ip_address failed pton6 found = throws (syscall_error "")
ip_address unparsed (parsed addr6) found = ok (in6_addr addr6)
ip_address unparsed failed found = throws (syscall_error "")
ip_address unparsed unparsed found = resolve found

-- `sockaddr_un` with its path, and `sockaddr_in` and `sockaddr_in6` with the bytes of the port and the host.
pub data SockAddr : Type 0 where
  sockaddr_un : Bytes → SockAddr
  sockaddr_in : Bytes → Bytes → SockAddr
  sockaddr_in6 : Bytes → Bytes → SockAddr

pub record SocketAddress : Type 0 where
  pub addr : SockAddr
  pub len : ℕ

-- `std::strncpy` of `n` bytes: the text to its NUL, and then NULs.
unfoldable pub strncpy : ℕ → Bytes → Bytes
strncpy zero s = []
strncpy (suc n) [] = replicate (suc n) 0
strncpy (suc n) (c ∷ s) = if c == 0 then replicate (suc n) 0 else c ∷ strncpy n s

-- `SocketAddress(path)`: `sun_path` has 108 bytes, which are 0 at first.
unfoldable pub path_address : Bytes → SocketAddress
unfolding strncpy
path_address path = record { addr = sockaddr_un (strncpy 107 path ++ 0 ∷ []); len = 110 }

-- `htons`, of an `int` that becomes a `uint16_t`
unfoldable pub htons : ℕ → Bytes
htons port = (port / 256 % 256) ∷ (port % 256) ∷ []

-- `socket_address`, and with it `SocketAddress(host, port)`
unfoldable pub socket_address : IpAddress → ℕ → SocketAddress
unfolding htons
socket_address (in_addr host) port = record { addr = sockaddr_in (htons port) host; len = 16 }
socket_address (in6_addr host) port = record { addr = sockaddr_in6 (htons port) host; len = 28 }

-- The text that ends at the first NUL.
abbrev pub text_of : Bytes → Bytes
text_of [] = []
text_of (c ∷ s) = if c == 0 then [] else c ∷ text_of s

-- The number that two bytes in network order stand for.
abbrev pub number_of : Bytes → ℕ
number_of [] = 0
number_of (hi ∷ []) = hi
number_of (hi ∷ lo ∷ rest) = hi * 256 + lo

length-strncpy : (n : ℕ) (s : Bytes) → length (strncpy n s) ≡ n
unfolding strncpy
length-strncpy zero s = refl
length-strncpy (suc n) [] = length-replicate (suc n) 0
length-strncpy (suc n) (c ∷ s) = ground (arith, length-strncpy n s, length-replicate {A = ℕ} n 0)

text_of-strncpy : (n : ℕ) (s : Bytes) → text_of (strncpy n s ++ 0 ∷ []) ≡ take n (text_of s)
unfolding strncpy
text_of-strncpy zero s = refl
text_of-strncpy (suc n) [] = refl
text_of-strncpy (suc n) (c ∷ s) = ground (arith, text_of-strncpy n s)

-- The address of a path holds a text of 107 bytes at most, which always ends with a NUL within the 108
-- bytes of `sun_path`: the path to its first NUL, and of a longer one the first 107 bytes.
pub path_address_text :
    (path : Bytes)
    → (sun_path : Bytes) × (path_address path ≡ record { addr = sockaddr_un sun_path; len = 110 })
      × (length sun_path ≡ 108)
      × (text_of sun_path ≡ take 107 (text_of path))
unfolding path_address
path_address_text path = (
  strncpy 107 path ++ 0 ∷ [],
  refl,
  length-append (strncpy 107 path) (0 ∷ []) ∙ ap (λ n. n + 1) (length-strncpy 107 path),
  text_of-strncpy 107 path,
)

-- The port of an address is the given one modulo 2^16, in network order.
pub socket_address_port :
    (host : Bytes) (port : ℕ)
    → (bytes : Bytes) × (socket_address (in_addr host) port
        ≡ record { addr = sockaddr_in bytes host; len = 16 })
      × (socket_address (in6_addr host) port ≡ record { addr = sockaddr_in6 bytes host; len = 28 })
      × (length bytes ≡ 2)
      × (number_of bytes ≡ port % 2 ^ 16)
unfolding socket_address htons
socket_address_port host port = (htons port, refl, refl, refl, omega arith)
