-- ===== src/Ssh/Ledger.antt =====
-- pkg/proxy/ssh/proxy.go: every connection that is dialled is held in one place or closed once.
use forager.Prelude.{
  ℕ, ◌+◌, ◌≤◌, ◌≡◌, String, List, [], ◌∷◌, Option, none, some, ltb, ◌==◌, nat_eq, string_eq,
  if◌then◌else◌, Map, lookup, delete, length, arith,
}
use forager.Prelude.Int.{ℤ, pos, negsuc}
use forager.Prelude.Keyed.{one_if, count, IsKeyed, total, total-delete}
use forager.Ssh.{Client, Config, PoolEntry, Proxy, close_pool, close_static}

-- How often a connection stands in the pool, and as the one to the fixed host.
abbrev pub pooled : Client → Map PoolEntry → ℕ
pooled c = total (λ (e : PoolEntry). one_if (e.client == c))

abbrev pub fixed : Client → Option Client → ℕ
fixed c none = 0
fixed c (some d) = one_if (d == c)

abbrev pub room_of : ℤ → ℕ
room_of (pos n) = if n == 0 then 50 else n
room_of (negsuc n) = 1

-- The most connections that the pool may hold.
abbrev pub room : Config → ℕ
room cfg = room_of cfg.pool_max_size

-- Each connection opened so far is held in one place or was closed once, and no other is; the pool
-- has one entry for an address, none for the empty one, and has not outgrown its size.
pub record IsTidy (p : Proxy) : Type 0 where
  pub ledger :
      (c : Client) → pooled c p.pool + fixed c p.client + count c p.closed ≡ one_if (ltb c p.opened)
  pub keyed : IsKeyed p.pool
  pub named : lookup "" p.pool ≡ none
  pub bounded : length p.pool ≤ room p.config

-- Deleting an entry takes its connection out of the pool, and no other.
pub pooled-delete :
    (k : String) (e : PoolEntry) (c : Client) (pool : Map PoolEntry)
    → IsKeyed pool
    → lookup k pool ≡ some e
    → pooled c (delete k pool) + one_if (e.client == c) ≡ pooled c pool
pooled-delete k e c = total-delete k e (λ (d : PoolEntry). one_if (d.client == c))

pub close_pool-count :
    (c : Client) (pool : Map PoolEntry) (closed : List Client)
    → count c (close_pool pool closed) ≡ pooled c pool + count c closed
unfolding close_pool
close_pool-count c [] closed = omega arith
close_pool-count c ((k, e) ∷ pool) closed =
    omega (arith, close_pool-count c pool (e.client ∷ closed))

pub close_static-count :
    (c : Client) (static : Option Client) (closed : List Client)
    → count c (close_static static closed) ≡ fixed c static + count c closed
close_static-count c none closed = omega arith
close_static-count c (some d) closed = omega arith
