-- ===== src/Common/Result.antt =====
-- crates/blackwire-common/src/error.rs: the errors, and the outcome of a call.
-- The text of a message is a constructor of `Fault`; what the text prints is its argument.
pub mod Access
pub mod Holds
use v2ray.Prelude.{ℕ, ◌-◌, ◌≡◌, ◌<◌, ◌≤◌, refl, Bool, true, false, ◌&&◌, List, [], ◌∷◌, ◌++◌}
use v2ray.Prelude.{Option, none, some, arith, leb, if◌then◌else◌, length, take, drop, get_elem?}

pub data Fault : Type 0 where
  domain_too_long : ℕ → Fault
  unknown_atyp bad_version unknown_command : ℕ → Fault
  invalid_utf8 truncated addons_too_long : Fault
  unknown_status unknown_network bad_length : ℕ → Fault
  missing_target too_long missing_crlf : Fault
  bad_fragment : ℕ → Fault
  bad_reserved no_outbounds : Fault

-- `io::ErrorKind`, for the kinds that the code tells apart.
pub data IoKind : Type 0 where
  connection_reset connection_aborted broken_pipe unexpected_eof other : IoKind

pub data ProxyError : Type 0 where
  auth_failed : ProxyError
  protocol : Fault → ProxyError
  transport : ProxyError
  tls : ProxyError
  timeout : ProxyError
  unsupported_network : ProxyError
  dns_resolution_failed : List ℕ → ProxyError
  routing_failed : ProxyError
  fallback_required : ProxyError
  io : IoKind → ProxyError

is_benign_io : IoKind → Bool
is_benign_io other = false
is_benign_io k = true

pub is_benign : ProxyError → Bool
unfolding is_benign_io
is_benign timeout = true
is_benign fallback_required = true
is_benign (io k) = is_benign_io k
is_benign e = false

-- The outcome of a call: a value, an error value, a panic of the thread, or a loop that has not
-- ended within its fuel or waits for a lock that does not come free.
pub data Result {ℓ} (A : Type ℓ) : Type ℓ where
  ok : A → Result A
  err : ProxyError → Result A
  panic : Result A
  stuck : Result A

infixl 5 ◌>>=◌ ◌>>◌
abbrev pub ◌>>=◌ {ℓ κ} : {A : Type ℓ} {B : Type κ} → Result A → (A → Result B) → Result B
ok a >>= f = f a
err e >>= f = err e
panic >>= f = panic
stuck >>= f = stuck

abbrev pub ◌>>◌ {ℓ} : {B : Type ℓ} → Result (Unit {0}) → Result B → Result B
m >> k = m >>= λ _. k

-- `if !test { return Err(Protocol(fault)) }`
abbrev pub ensure : Bool → Fault → Result (Unit {0})
ensure true f = ok tt
ensure false f = err (protocol f)

-- `data[i]`
abbrev pub index : List ℕ → ℕ → Result ℕ
index xs i = elim (get_elem? xs i) [ none ↦ panic | some x ↦ ok x ]

-- `&data[from..to]`
abbrev pub slice : List ℕ → ℕ → ℕ → Result (List ℕ)
slice xs from to =
    if leb from to && leb to (length xs) then ok (take (to - from) (drop from xs)) else panic
