-- ===== src/Registry/Closing.antt =====
-- pkg/proxy/registry.go: `Register`, `Remove` and `CloseAll` close the proxies that they drop.
use forager.Prelude.{
  ◌≡◌, ◌≢◌, refl, String, Option, none, some, [], ◌∷◌, arith, ◌==◌, nat_eq, string_eq,
  if◌then◌else◌, Map, lookup, delete, lookup-insert, lookup-delete, is_some,
}
use forager.Errors.{GoError}
use forager.Registry.{
  Proxy, DatasourceEntry, Registry, close_old, register, remove, get, list, close_each,
}

-- After `Register` the datasource has the new proxy and entry, with no last success and no request
-- error; a proxy that it replaces was closed; and every other datasource is as it was.
pub register_lem :
    (id j : String) (entry : DatasourceEntry) (p : Proxy) (r : Registry)
    → (get j (register id entry p r) ≡ (if id == j then some p else get j r))
      × (lookup j (list (register id entry p r))
          ≡ (if id == j then some entry else lookup j (list r)))
      × (lookup j (register id entry p r).last_success
          ≡ (if id == j then none else lookup j r.last_success))
      × (lookup j (register id entry p r).req_errors
          ≡ (if id == j then none else lookup j r.req_errors))
      × ((register id entry p r).closed ≡ close_old (get id r) r.closed)
unfolding register get list
register_lem id j entry p r = (
  lookup-insert id j p r.proxies,
  lookup-insert id j entry r.configs,
  lookup-delete id j r.last_success,
  lookup-delete id j r.req_errors,
  refl,
)

-- `Remove` of a registered datasource closes its proxy. If that succeeds the datasource is gone from
-- each of the four maps, and no other datasource is touched; if it fails, the error is returned and
-- the closed proxy stays registered, with the four maps as they were.
pub remove_lem :
    (close : Proxy → Option GoError) (id j : String) (r : Registry) (p : Proxy)
    → get id r ≡ some p
    → ((remove close id r).1 ≡ close p)
      × ((remove close id r).0.closed ≡ p ∷ r.closed)
      × (close p ≡ none
          → (get j (remove close id r).0 ≡ (if id == j then none else get j r))
            × (lookup j (list (remove close id r).0)
                ≡ (if id == j then none else lookup j (list r)))
            × (lookup j (remove close id r).0.last_success
                ≡ (if id == j then none else lookup j r.last_success))
            × (lookup j (remove close id r).0.req_errors
                ≡ (if id == j then none else lookup j r.req_errors)))
      × (close p ≢ none → (remove close id r).0 ≡ record r { closed = p ∷ r.closed })
unfolding remove get list
remove_lem close id j r p here = (
  ground arith,
  ground arith,
  λ h. (
    ground (arith, lookup-delete id j r.proxies),
    ground (arith, lookup-delete id j r.configs),
    ground (arith, lookup-delete id j r.last_success),
    ground (arith, lookup-delete id j r.req_errors),
  ),
  λ h. ground arith,
)

pub close_each-lookup :
    (m : Map Proxy) (j : String) (r : Registry)
    → (lookup j (close_each m r).proxies
        ≡ (if is_some (lookup j m) then none else lookup j r.proxies))
      × (lookup j (close_each m r).configs
          ≡ (if is_some (lookup j m) then none else lookup j r.configs))
      × (lookup j (close_each m r).req_errors
          ≡ (if is_some (lookup j m) then none else lookup j r.req_errors))
unfolding close_each lookup
close_each-lookup [] j r = (refl, refl, refl)
close_each-lookup ((id, p) ∷ rest) j r =
    let r' : Registry = record {
      closed = p ∷ r.closed;
      proxies = delete id r.proxies;
      configs = delete id r.configs;
      last_success = r.last_success;
      req_errors = delete id r.req_errors;
    } in
    let ih = close_each-lookup rest j r' in
    (
      ground (arith, ih.0, lookup-delete id j r.proxies),
      ground (arith, ih.1, lookup-delete id j r.configs),
      ground (arith, ih.2, lookup-delete id j r.req_errors),
    )
