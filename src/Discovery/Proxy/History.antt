-- ===== src/Discovery/Proxy/History.antt =====
-- pkg/proxy/discovery/proxy.go: what `Configure`, requests and `Close` do to the packs.
use forager.Prelude.{ℕ, Bool, false, Option, none, some, List, [], ◌∷◌, Map}
use forager.Prelude.Bytes.{Bytes}
use forager.Discovery.Params.{Param}
use forager.Discovery.Pack.{PackCodecs}
use forager.Discovery.Proxy.{Packs, resolve_pack}

-- `New`
abbrev pub new_packs : Packs
new_packs = record { cached = []; pub_key = none; has_dir = false }

-- `Configure`, as far as packs go: a key that is given replaces the one before, and the packs that
-- are cached stay. The key is `none` where none is given, and where it is not one or an earlier step
-- fails.
abbrev pub configure_packs : Option Bytes → Bool → Packs → Packs
configure_packs none has_dir s = record s { has_dir = has_dir }
configure_packs (some key) has_dir s = record s { pub_key = some key; has_dir = has_dir }

-- `Close`
abbrev pub forget_packs : Packs → Packs
forget_packs s = record s { cached = [] }

-- What changes the packs of a datasource; each holds its lock.
pub data PackOp : Type 0 where
  configure_op : Option Bytes → Bool → PackOp
  request_op : (ℕ → Option Bytes) → Map Param → PackOp
  close_op : PackOp

unfoldable pub apply_pack_op : PackCodecs → PackOp → Packs → Packs
apply_pack_op lib (configure_op key has_dir) s = configure_packs key has_dir s
apply_pack_op lib (request_op files params) s = (resolve_pack lib files params s).0
apply_pack_op lib close_op s = forget_packs s

-- The operations, latest first.
unfoldable pub run_pack_ops : PackCodecs → List PackOp → Packs
run_pack_ops lib [] = new_packs
run_pack_ops lib (op ∷ earlier) = apply_pack_op lib op (run_pack_ops lib earlier)

-- The keys that `Configure` was given.
abbrev pub keys_of : List PackOp → List Bytes
keys_of [] = []
keys_of (configure_op none has_dir ∷ earlier) = keys_of earlier
keys_of (configure_op (some key) has_dir ∷ earlier) = key ∷ keys_of earlier
keys_of (request_op files params ∷ earlier) = keys_of earlier
keys_of (close_op ∷ earlier) = keys_of earlier
