-- ===== src/Net/Local.antt =====
-- com_foreach_local_ipv4 and com_is_local_ipv4 of src/myfcp/fcp_net.c. The interfaces are a
-- parameter: what `getifaddrs` answers.
pub mod Laws
use commlib.Base.{
  ℕ, zero, suc, Bool, true, false, Option, none, some, List, [], ◌∷◌, ◌==◌, if◌then◌else◌,
}
use commlib.Libc.{ℤ, pos, negsuc, inet_ntop, starts_with}

-- `ifa_addr`: the family and, where that is AF_INET, the four bytes of the address as a number, the
-- lowest first.
pub record IfAddr : Type 0 where
  pub family : ℕ
  pub address : ℕ

-- One member of the list; `none` is a NULL `ifa_addr`.
abbrev pub Interface : Type 0
Interface = Option IfAddr

abbrev pub af_inet : ℕ
af_inet = 2

-- How a call ends: it returns a number, or it reads through a NULL `ifa_addr`.
pub data Ended {ℓ} (U : Type ℓ) : Type ℓ where
  returned : U → ℤ → Ended U
  null_read : Ended U

-- What the callback's answer asks for: COMM_STOP_IPGET, COMM_CONTINUE_IPGET, or its own number.
pub data Wish : Type 0 where
  stop go : Wish
  other : ℤ → Wish

abbrev pub wish_of : ℤ → Wish
wish_of (pos zero) = go
wish_of (pos (suc n)) = other (pos (suc n))
wish_of (negsuc zero) = stop
wish_of (negsuc (suc n)) = other (negsuc (suc n))

module _ {ℓ} {U : Type ℓ} (singleip : List ℕ → U → U × ℤ) where
  unfoldable pub local_loop : List Interface → U → Ended U
  local_loop [] u = returned u (pos 0)
  local_loop (none ∷ rest) u = null_read
  local_loop (some a ∷ rest) u = elim (a.family == af_inet) [
    | false ↦ local_loop rest u
    | true ↦ elim (wish_of (singleip (inet_ntop a.address) u).1) [
      | stop ↦ returned (singleip (inet_ntop a.address) u).0 (pos 0)
      | go ↦ local_loop rest (singleip (inet_ntop a.address) u).0
      | other n ↦ returned (singleip (inet_ntop a.address) u).0 n
    ]
  ]

  unfoldable pub foreach_local_ipv4 : Option (List Interface) → U → Ended U
  unfolding local_loop
  foreach_local_ipv4 none u = returned u (negsuc 0)
  foreach_local_ipv4 (some list) u = local_loop list u

-- `!strncmp(ipbuff, ipv4addr, strlen(ipbuff))`. `none` is a read through a NULL `ifa_addr`.
unfoldable pub is_local_loop : List Interface → List ℕ → Option Bool
is_local_loop [] ipv4addr = some false
is_local_loop (none ∷ rest) ipv4addr = none
is_local_loop (some a ∷ rest) ipv4addr = elim (a.family == af_inet) [
  | false ↦ is_local_loop rest ipv4addr
  | true ↦ elim (starts_with ipv4addr (inet_ntop a.address)) [
    | true ↦ some true
    | false ↦ is_local_loop rest ipv4addr
  ]
]

-- A `none` text is NULL.
unfoldable pub is_local_ipv4 : Option (List Interface) → Option (List ℕ) → Option Bool
unfolding is_local_loop
is_local_ipv4 list none = some false
is_local_ipv4 list (some []) = some false
is_local_ipv4 none (some (c ∷ s)) = some false
is_local_ipv4 (some list) (some (c ∷ s)) = is_local_loop list (c ∷ s)
