-- ===== src/Ssh/Tidy.antt =====
-- pkg/proxy/ssh/proxy.go: the operations on the pool keep the ledger of connections.
use forager.Prelude.{
  ℕ, ◌≤◌, ◌≡◌, ◌≢◌, ◌⊎◌, ◌∙◌, refl, inl, inr, Bool-cases, Option-cases, String, [], ◌∷◌, none, some,
  ltb, nat_eq, string_eq, eq_iff, Map, lookup, arith, All,
}
use forager.Ssh.{PoolEntry, Proxy}
use forager.Ssh.Pool.{drop_entry, older, oldest_from, evict_from}
use forager.Prelude.Keyed.{IsKeyed, delete-IsKeyed, length-delete, lookup-delete_absent}
use forager.Ssh.Ledger.{pooled-delete, IsTidy}

-- A dropped entry's connection moves from the pool to the closed ones.
pub drop_entry-IsTidy : (addr : String) (p : Proxy) → IsTidy p → IsTidy (drop_entry addr p)
unfolding drop_entry
drop_entry-IsTidy addr p t = elim (Option-cases (lookup addr p.pool)) [
  | inl missing ↦ rw (missing, drop_entry) t
  | inr (e, found) ↦
      rw (found, drop_entry)
        (record {
          ledger = λ c. ground (arith, t.ledger c, pooled-delete addr e c p.pool t.keyed found);
          keyed = delete-IsKeyed addr p.pool t.keyed;
          named = lookup-delete_absent addr "" p.pool t.named;
          bounded = ground (arith, t.bounded, length-delete addr e p.pool t.keyed found);
        })
]

older_lem :
    (best : String × ℕ) (k : String) (d : PoolEntry)
    → ((older best (k, d) ≡ best) ⊎ (older best (k, d) ≡ (k, d.last_used)))
      × ((older best (k, d)).1 ≤ best.1)
      × ((older best (k, d)).1 ≤ d.last_used)
older_lem (old, at) k d = elim (Bool-cases (ltb d.last_used at)) [
  | inl before ↦ rw before (inr refl, ground arith, omega arith)
  | inr later ↦ rw later (inl refl, omega arith, ground arith)
]

-- The address in hand after the loop is the first one, or that of an entry with its time.
oldest_from-found :
    (best : String × ℕ) (pool : Map PoolEntry)
    → IsKeyed pool
    → ((oldest_from best pool ≡ best)
        ⊎ ((e : PoolEntry) × (lookup (oldest_from best pool).0 pool ≡ some e)
            × (e.last_used ≡ (oldest_from best pool).1)))
unfolding oldest_from lookup
oldest_from-found best [] h = inl refl
oldest_from-found best ((k, d) ∷ pool) h =
    let last = oldest_from (older best (k, d)) pool in
    elim (oldest_from-found (older best (k, d)) pool h.1) [
      | inl same ↦ elim (older_lem best k d).0 [
        | inl kept ↦ inl (same ∙ kept)
        | inr taken ↦ inr (d, ground (arith, eq_iff k last.0), ground arith)
      ]
      | inr (e, found, time) ↦ inr (e, ground (arith, eq_iff k last.0), time)
    ]

-- No entry was used before it.
oldest_from-least :
    (best : String × ℕ) (pool : Map PoolEntry) (n : ℕ)
    → n ≤ (oldest_from best pool).1
    → (n ≤ best.1) × All (λ (e : String × PoolEntry). n ≤ e.1.last_used) pool
unfolding oldest_from
oldest_from-least best [] n h = (h, tt)
oldest_from-least best ((k, d) ∷ pool) n h =
    let (first, rest) = oldest_from-least (older best (k, d)) pool n h in
    let (_, below_best, below_entry) = older_lem best k d in (omega arith, (omega arith, rest))

-- What makes room in a pool that is not empty: the entry used longest ago is dropped.
pub record IsEvicted (p : Proxy) (q : Proxy) : Type 0 where
  pub addr : String
  pub entry : PoolEntry
  pub pooled_at : lookup addr p.pool ≡ some entry
  pub dropped : q ≡ drop_entry addr p
  pub least : All (λ (e : String × PoolEntry). entry.last_used ≤ e.1.last_used) p.pool

pub evict_from-IsEvicted :
    (pool : Map PoolEntry) (p : Proxy)
    → p.pool ≡ pool
    → pool ≢ []
    → IsKeyed pool
    → lookup "" pool ≡ none
    → IsEvicted p (evict_from pool p)
unfolding lookup
evict_from-IsEvicted [] p same some_entry keyed named = absurd (some_entry refl)
evict_from-IsEvicted ((k, d) ∷ pool) p same some_entry keyed named =
    let last = oldest_from (k, d.last_used) pool in
    elim (oldest_from-found (k, d.last_used) pool keyed.1) [
      | inl first ↦ record {
        addr = k;
        entry = d;
        pooled_at = rw same (ground (arith, eq_iff k k));
        dropped = ground (arith, eq_iff k "");
        least = rw same (oldest_from-least (k, d.last_used) pool d.last_used (ground arith));
      }
      | inr (e, found, time) ↦ record {
        addr = last.0;
        entry = e;
        pooled_at = rw same (ground (arith, eq_iff k last.0));
        dropped = ground (arith, eq_iff last.0 "");
        least = rw same (oldest_from-least (k, d.last_used) pool e.last_used (ground arith));
      }
    ]
