-- ===== src/Ssh/Locks.antt =====
-- pkg/proxy/ssh/proxy.go: the locks `mu` and `poolMu`, taken in one order by `getPooledClient` and in
-- the other by `Configure` and `Close`.
use forager.Prelude.{
  ℕ, suc, ◌+◌, ◌<◌, ◌≡◌, ◌≢◌, refl, List, [], ◌∷◌, Option, none, some, arith, ◌==◌, nat_eq,
  if◌then◌else◌,
}

pub data Instr : Type 0 where
  lock_pool unlock_pool lock unlock read_lock read_unlock : Instr

-- `getPooledClient` of an address that has to be dialled.
abbrev pub get_pooled_client_locks : List Instr
get_pooled_client_locks = lock_pool ∷ read_lock ∷ read_unlock ∷ unlock_pool ∷ []

-- `Close` and `Configure`, which call `closeAllLocked`.
abbrev pub close_locks : List Instr
close_locks = lock ∷ lock_pool ∷ unlock_pool ∷ unlock ∷ []

-- Which goroutine holds `poolMu`, which one holds `mu` for writing, and how many hold it for reading.
pub record Locks : Type 0 where
  pub pool : Option ℕ
  pub writer : Option ℕ
  pub readers : ℕ

-- Two goroutines, 0 in a request and 1 in `Close`, and any others, each with what it has left to do.
pub record System : Type 0 where
  pub request : List Instr
  pub closer : List Instr
  pub others : ℕ → List Instr
  pub locks : Locks

-- One instruction of a goroutine: a `Lock` only where nobody holds the lock, an `Unlock` by its holder.
pub data Exec (who : ℕ) : Instr → Locks → Locks → Type 0 where
  pool_taken : (l : Locks) → l.pool ≡ none → Exec who lock_pool l (record l { pool = some who })
  pool_left : (l : Locks) → l.pool ≡ some who → Exec who unlock_pool l (record l { pool = none })
  taken :
      (l : Locks)
      → l.writer ≡ none
      → l.readers ≡ 0
      → Exec who lock l (record l { writer = some who })
  left : (l : Locks) → l.writer ≡ some who → Exec who unlock l (record l { writer = none })
  read_taken :
      (l : Locks) → l.writer ≡ none → Exec who read_lock l (record l { readers = l.readers + 1 })
  read_left :
      (l : Locks) (n : ℕ) → l.readers ≡ suc n → Exec who read_unlock l (record l { readers = n })

abbrev pub update : (ℕ → List Instr) → ℕ → List Instr → ℕ → List Instr
update f i code j = if j == i then code else f j

pub data Step : System → System → Type 0 where
  request_steps :
      (s : System) (i : Instr) (rest : List Instr) (l : Locks)
      → s.request ≡ i ∷ rest
      → Exec 0 i s.locks l
      → Step s (record s { request = rest; locks = l })
  closer_steps :
      (s : System) (i : Instr) (rest : List Instr) (l : Locks)
      → s.closer ≡ i ∷ rest
      → Exec 1 i s.locks l
      → Step s (record s { closer = rest; locks = l })
  other_steps :
      (s : System) (k : ℕ) (i : Instr) (rest : List Instr) (l : Locks)
      → s.others k ≡ i ∷ rest
      → Exec (k + 2) i s.locks l
      → Step s (record s { others = update s.others k rest; locks = l })

pub data Reach (s : System) : System → Type 0 where
  here : Reach s s
  next : {t u : System} → Reach s t → Step t u → Reach s u

abbrev pub free : Locks
free = record { pool = none; writer = none; readers = 0 }

-- A request and a `Close` begin, with no lock held.
abbrev pub begun : (ℕ → List Instr) → System
begun others = record {
  request = get_pooled_client_locks;
  closer = close_locks;
  others = others;
  locks = free;
}

-- Each has taken its first lock.
abbrev pub crossed : (ℕ → List Instr) → System
crossed others = record {
  request = read_lock ∷ read_unlock ∷ unlock_pool ∷ [];
  closer = lock_pool ∷ unlock_pool ∷ unlock ∷ [];
  others = others;
  locks = record { pool = some 0; writer = some 1; readers = 0 };
}

-- The request waits for `mu` and holds `poolMu`; the closer waits for `poolMu` and holds `mu`.
record IsStuck (s : System) : Type 0 where
  requesting : s.request ≡ read_lock ∷ read_unlock ∷ unlock_pool ∷ []
  closing : s.closer ≡ lock_pool ∷ unlock_pool ∷ unlock ∷ []
  pool_held : s.locks.pool ≡ some 0
  mu_held : s.locks.writer ≡ some 1

-- Nobody else can release the two locks.
Exec-keeps :
    {i : Instr} (who : ℕ) {l m : Locks}
    → 1 < who
    → Exec who i l m
    → l.pool ≡ some 0
    → l.writer ≡ some 1
    → (m.pool ≡ some 0) × (m.writer ≡ some 1)
Exec-keeps who k (pool_taken l e) p w = ground arith
Exec-keeps who k (pool_left l e) p w = ground arith
Exec-keeps who k (taken l e r) p w = ground arith
Exec-keeps who k (left l e) p w = ground arith
Exec-keeps who k (read_taken l e) p w = ground arith
Exec-keeps who k (read_left l n e) p w = ground arith

read_lock-blocked : {i : Instr} {l m : Locks} → Exec 0 i l m → i ≡ read_lock → l.writer ≢ some 1
read_lock-blocked (pool_taken l e) h w = cc
read_lock-blocked (pool_left l e) h w = cc
read_lock-blocked (taken l e r) h w = cc
read_lock-blocked (left l e) h w = cc
read_lock-blocked (read_taken l e) h w = cc
read_lock-blocked (read_left l n e) h w = cc

lock_pool-blocked : {i : Instr} {l m : Locks} → Exec 1 i l m → i ≡ lock_pool → l.pool ≢ some 0
lock_pool-blocked (pool_taken l e) h p = cc
lock_pool-blocked (pool_left l e) h p = cc
lock_pool-blocked (taken l e r) h p = cc
lock_pool-blocked (left l e) h p = cc
lock_pool-blocked (read_taken l e) h p = cc
lock_pool-blocked (read_left l n e) h p = cc

Step-IsStuck : {s t : System} → Step s t → IsStuck s → IsStuck t
Step-IsStuck (request_steps s i rest l e x) h = absurd (read_lock-blocked x (cc) h.mu_held)
Step-IsStuck (closer_steps s i rest l e x) h = absurd (lock_pool-blocked x (cc) h.pool_held)
Step-IsStuck (other_steps s k i rest l e x) h =
    let (pool, mu) = Exec-keeps (k + 2) (omega arith) x h.pool_held h.mu_held in
    record { requesting = h.requesting; closing = h.closing; pool_held = pool; mu_held = mu }

Reach-IsStuck : {s t : System} → Reach s t → IsStuck s → IsStuck t
Reach-IsStuck here h = h
Reach-IsStuck (next r st) h = Step-IsStuck st (Reach-IsStuck r h)

-- A request that dials and a `Close` that begins meanwhile can each take their first lock, and from
-- then on neither takes another step, whatever the other goroutines do.
pub deadlock_lem :
    (others : ℕ → List Instr) {t : System}
    → Reach (crossed others) t
    → Reach (begun others) (crossed others)
      × (t.request ≡ read_lock ∷ read_unlock ∷ unlock_pool ∷ [])
      × (t.closer ≡ lock_pool ∷ unlock_pool ∷ unlock ∷ [])
      × (t.locks.pool ≡ some 0)
      × (t.locks.writer ≡ some 1)
deadlock_lem others r =
    let stuck =
      Reach-IsStuck r
        (record { requesting = refl; closing = refl; pool_held = refl; mu_held = refl }) in
    (
      next (next here (request_steps (begun others) lock_pool _ _ refl (pool_taken _ refl)))
          (closer_steps _ lock _ _ refl (taken _ refl refl)),
      stuck.requesting,
      stuck.closing,
      stuck.pool_held,
      stuck.mu_held,
    )
