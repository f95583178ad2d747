-- ===== src/Ssh/Connections.antt =====
-- pkg/proxy/ssh/proxy.go: what any operations leave of the connections that they opened.
use forager.Prelude.{
  ℕ, zero, suc, ◌+◌, ◌≤◌, ◌≡◌, ◌≢◌, ◌⊎◌, refl, inl, inr, Bool-cases, Option-cases, false, String,
  [], ◌∷◌, none, some, nat_eq, string_eq, eq_iff, if◌then◌else◌, Map, lookup, insert, lookup-insert,
  length, arith,
}
use forager.Prelude.Int.{ℤ, pos, negsuc}
use forager.Discovery.Proxy.{is_zero}
use forager.Ssh.{PoolEntry, Proxy, Remote}
use forager.Ssh.Pool.{
  drop_entry, evict_oldest, is_full, pool_limit, make_room, add_client, dial_pooled,
  get_pooled_client,
}
use forager.Prelude.Keyed.{
  insert-IsKeyed, length-delete, lookup-delete_absent, lookup-delete_self, delete_absent,
}
use forager.Ssh.Ledger.{pooled-delete, IsTidy, room, room_of}
use forager.Ssh.Tidy.{IsEvicted, drop_entry-IsTidy, evict_from-IsEvicted}

-- Room for one more entry.
abbrev HasRoom : Proxy → Type 0
HasRoom p = length p.pool + 1 ≤ room p.config

List-cases : (pool : Map PoolEntry) → (pool ≡ []) ⊎ (pool ≢ [])
List-cases [] = inl refl
List-cases (e ∷ pool) = inr (cc)

drop_entry-HasRoom :
    (addr : String) (e : PoolEntry) (p : Proxy)
    → IsTidy p
    → lookup addr p.pool ≡ some e
    → HasRoom (drop_entry addr p)
unfolding drop_entry
drop_entry-HasRoom addr e p t found =
    ground (arith, t.bounded, length-delete addr e p.pool t.keyed found)

drop_entry-absent :
    (k addr : String) (p : Proxy)
    → lookup k p.pool ≡ none
    → lookup k (drop_entry addr p).pool ≡ none
unfolding drop_entry
drop_entry-absent k addr p h = ground (arith, lookup-delete_absent addr k p.pool h)

evict_oldest_empty : (p : Proxy) → p.pool ≡ [] → evict_oldest p ≡ p
unfolding evict_oldest
evict_oldest_empty p h = rw h refl

evict_oldest-IsEvicted : (p : Proxy) → IsTidy p → p.pool ≢ [] → IsEvicted p (evict_oldest p)
unfolding evict_oldest
evict_oldest-IsEvicted p t h = evict_from-IsEvicted p.pool p refl h t.keyed t.named

not_full :
    (limit : ℤ) (n : ℕ)
    → is_full (if is_zero limit then pos 50 else limit) n ≡ false
    → n + 1 ≤ room_of limit
not_full (pos m) n h = ground arith
not_full (negsuc m) n h = cc

pub some_room : (limit : ℤ) → 1 ≤ room_of limit
some_room (pos zero) = omega arith
some_room (pos (suc m)) = ground arith
some_room (negsuc m) = omega arith

-- Eviction leaves the ledger in order and makes room.
make_room-IsTidy : (p : Proxy) → IsTidy p → IsTidy (make_room p) × HasRoom (make_room p)
make_room-IsTidy p t = elim (Bool-cases (is_full (pool_limit p) (length p.pool))) [
  | inr not ↦ rw not (t, not_full p.config.pool_max_size (length p.pool) not)
  | inl full ↦ rw full (elim (List-cases p.pool) [
    | inl empty ↦ rw (evict_oldest_empty p empty) (t, rw empty (some_room p.config.pool_max_size))
    | inr filled ↦
        let v = evict_oldest-IsEvicted p t filled in
        rw v.dropped
          (drop_entry-IsTidy v.addr p t, drop_entry-HasRoom v.addr v.entry p t v.pooled_at)
  ])
]

make_room-absent :
    (k : String) (p : Proxy)
    → IsTidy p
    → lookup k p.pool ≡ none
    → lookup k (make_room p).pool ≡ none
make_room-absent k p t h = elim (Bool-cases (is_full (pool_limit p) (length p.pool))) [
  | inr not ↦ rw not h
  | inl full ↦ rw full (elim (List-cases p.pool) [
    | inl empty ↦ rw (evict_oldest_empty p empty) h
    | inr filled ↦
        let v = evict_oldest-IsEvicted p t filled in rw v.dropped (drop_entry-absent k v.addr p h)
  ])
]

added-IsTidy :
    (remote : Remote) (addr : String) (p : Proxy)
    → addr ≢ ""
    → lookup addr p.pool ≡ none
    → IsTidy p
    → HasRoom p
    → IsTidy (add_client remote addr p).0
unfolding insert
added-IsTidy remote addr p named absent t room = record {
  ledger = λ c. ground (arith, t.ledger c, t.ledger p.opened, delete_absent addr p.pool absent);
  keyed = insert-IsKeyed addr (record { client = p.opened; last_used = remote.now }) p.pool t.keyed;
  named = ground (
    arith,
    lookup-insert addr "" (record { client = p.opened; last_used = remote.now }) p.pool,
    t.named,
    eq_iff addr "",
  );
  bounded = ground (arith, delete_absent addr p.pool absent);
}

-- A connection that is dialled is in the pool; nothing else changes.
dial_pooled-IsTidy :
    (remote : Remote) (addr : String) (p : Proxy)
    → addr ≢ ""
    → lookup addr p.pool ≡ none
    → IsTidy p
    → HasRoom p
    → IsTidy (dial_pooled remote addr p).0
unfolding dial_pooled
dial_pooled-IsTidy remote addr p named absent t room = elim (Option-cases p.ssh_config) [
  | inl missing ↦ rw (missing, dial_pooled) t
  | inr (cfg, found) ↦ elim (Bool-cases (remote.is_reachable addr)) [
    | inr down ↦ rw (found, dial_pooled) (rw down t)
    | inl up ↦ rw (found, dial_pooled) (rw up (added-IsTidy remote addr p named absent t room))
  ]
]

reused-IsTidy :
    (remote : Remote) (addr : String) (e : PoolEntry) (p : Proxy)
    → addr ≢ ""
    → lookup addr p.pool ≡ some e
    → IsTidy p
    → IsTidy (record p { pool = insert addr (record e { last_used = remote.now }) p.pool })
unfolding insert
reused-IsTidy remote addr e p named found t = record {
  ledger = λ c. ground (arith, t.ledger c, pooled-delete addr e c p.pool t.keyed found);
  keyed = insert-IsKeyed addr (record e { last_used = remote.now }) p.pool t.keyed;
  named = ground (
    arith,
    lookup-insert addr "" (record e { last_used = remote.now }) p.pool,
    t.named,
    eq_iff addr "",
  );
  bounded = ground (arith, t.bounded, length-delete addr e p.pool t.keyed found);
}

-- An address that is not in the pool is dialled behind room for it.
dial_with_room-IsTidy :
    (remote : Remote) (addr : String) (p : Proxy)
    → addr ≢ ""
    → lookup addr p.pool ≡ none
    → IsTidy p
    → IsTidy (dial_pooled remote addr (make_room p)).0
dial_with_room-IsTidy remote addr p named absent t =
    let (tidy, room) = make_room-IsTidy p t in
    dial_pooled-IsTidy remote addr (make_room p) named (make_room-absent addr p t absent) tidy room

drop_entry-gone : (addr : String) (p : Proxy) → lookup addr (drop_entry addr p).pool ≡ none
unfolding drop_entry
drop_entry-gone addr p = ground (arith, lookup-delete_self addr p.pool)

pub get_pooled_client-IsTidy :
    (remote : Remote) (addr : String) (p : Proxy)
    → addr ≢ ""
    → IsTidy p
    → IsTidy (get_pooled_client remote addr p).0
unfolding get_pooled_client
get_pooled_client-IsTidy remote addr p named t = elim (Option-cases (lookup addr p.pool)) [
  | inl absent ↦ rw (absent, get_pooled_client) (dial_with_room-IsTidy remote addr p named absent t)
  | inr (e, found) ↦
      rw (found, get_pooled_client)
        (elim (Bool-cases (remote.is_alive e.client)) [
          | inl alive ↦ rw alive (reused-IsTidy remote addr e p named found t)
          | inr dead ↦ rw dead (
              dial_with_room-IsTidy remote addr (drop_entry addr p) named (drop_entry-gone addr p)
                (drop_entry-IsTidy addr p t))
        ])
]
