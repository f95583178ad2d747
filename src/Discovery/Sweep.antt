-- ===== src/Discovery/Sweep.antt =====
-- pkg/proxy/discovery/sweep.go: the addresses of a sweep. An IPv4 address is a number below 2^32,
-- and a prefix an address with the count of its leading bits; `Is4` of an IPv6 prefix is false.
pub mod Scope
pub mod Complete
use forager.Prelude.{
  ℕ, zero, suc, ◌+◌, ◌-◌, ◌*◌, ◌/◌, ◌%◌, ◌^◌, Bool, true, false, ◌&&◌, ◌||◌, not, List, [], ◌∷◌,
  ◌++◌, ltb, leb, ◌==◌, nat_eq, if◌then◌else◌, Result, ok, err, length,
}

pub record Prefix : Type 0 where
  pub is4 : Bool
  pub addr : ℕ
  pub bits : ℕ

abbrev pub max_sweep_addresses : ℕ
max_sweep_addresses = 65_536

-- int64(1) << (32 - bits)
abbrev pub size : Prefix → ℕ
size p = 2 ^ (32 - p.bits)

-- `Masked().Addr()`
abbrev pub first_addr : Prefix → ℕ
first_addr p = p.addr - p.addr % size p

-- `Contains`: an IPv4 address is in no IPv6 prefix.
unfoldable pub contains : Prefix → ℕ → Bool
contains p addr = p.is4 && first_addr p == addr - addr % size p

unfoldable pub is_excluded : ℕ → List Prefix → Bool
unfolding contains
is_excluded addr [] = false
is_excluded addr (ex ∷ exclusions) = contains ex addr || is_excluded addr exclusions

pub data SweepError : Type 0 where
  only_ipv4 too_many : SweepError

pub record Expansion : Type 0 where
  pub addrs : List ℕ
  pub excluded : ℕ

-- Network and broadcast of a prefix shorter than /31.
abbrev pub is_edge : Prefix → ℕ → Bool
is_edge cidr i = leb cidr.bits 30 && (i == 0 || i == size cidr - 1)

abbrev pub visit : Prefix → List Prefix → ℕ → ℕ → Expansion → Expansion
visit cidr exclusions i addr e =
    if is_edge cidr i
    then e
    else if is_excluded addr exclusions
    then record e { excluded = e.excluded + 1 }
    else record e { addrs = e.addrs ++ (addr ∷ []) }

-- The loop over one prefix, by the rounds that are left.
unfoldable pub expand_from : Prefix → List Prefix → ℕ → ℕ → ℕ → Expansion → Expansion
expand_from cidr exclusions zero i addr e = e
expand_from cidr exclusions (suc n) i addr e =
    expand_from cidr exclusions n (i + 1) (addr + 1) (visit cidr exclusions i addr e)

unfoldable pub expand_all : List Prefix → List Prefix → Expansion → Result SweepError Expansion
expand_all [] exclusions e = ok e
expand_all (cidr ∷ cidrs) exclusions e =
    let rest =
      expand_all cidrs exclusions (expand_from cidr exclusions (size cidr) 0 (first_addr cidr) e) in
    if not cidr.is4
    then err only_ipv4
    else if ltb max_sweep_addresses (length e.addrs + size cidr)
    then err too_many
    else rest

unfoldable pub expand_cidrs : List Prefix → List Prefix → Result SweepError Expansion
expand_cidrs cidrs exclusions = expand_all cidrs exclusions (record { addrs = []; excluded = 0 })

-- `burstFor`
unfoldable pub burst_for : ℕ → ℕ
burst_for rate_pps = let burst = rate_pps / 10 in if ltb burst 1 then 1 else burst
