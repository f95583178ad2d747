-- ===== src/Http/Headers.antt =====
-- pkg/proxy/http/proxy.go: the headers of a forwarded request, with the credentials.
use Prim.Native.String.{◌++◌ as text_append}
use mathlib.Core.List.{append_assoc, append-nil}
use forager.Prelude.{
  ◌≡◌, refl, sym, ap, String, Option, none, some, List, [], ◌∷◌, ◌++◌, ◌==◌, string_eq, eq_iff,
  if◌then◌else◌, Map, lookup, insert, lookup-insert, arith,
}
use forager.Prelude.Bytes.{Bytes, bytes_eq, codes}
use forager.Http.{cred}

-- http.Header
abbrev pub Header : Type 0
Header = Map (List String)

abbrev pub values : Option (List String) → List String
values none = []
values (some vs) = vs

lookup_empty : (j : String) → lookup {V = List String} j [] ≡ none
unfolding lookup
lookup_empty j = refl

-- `canonical` is http.CanonicalHeaderKey, and `basic_auth` the value that SetBasicAuth writes.
module _ (canonical : String → String) (basic_auth : String → String → String) where
  -- Header.Add
  abbrev pub add : String → String → Header → Header
  add k v h = insert (canonical k) (values (lookup (canonical k) h) ++ (v ∷ [])) h

  -- Header.Set
  abbrev pub set : String → String → Header → Header
  set k v h = insert (canonical k) (v ∷ []) h

  unfoldable pub add_all : String → List String → Header → Header
  add_all k [] h = h
  add_all k (v ∷ vs) h = add_all k vs (add k v h)

  -- The loops that copy the headers of the request.
  unfoldable pub copy_header : Header → Header → Header
  unfolding add_all
  copy_header [] h = h
  copy_header ((k, vs) ∷ rest) h = copy_header rest (add_all k vs h)

  -- `injectAuthWith`
  unfoldable pub inject_auth : Bytes → Map String → Header → Header
  inject_auth auth_type creds h =
      if auth_type == codes "basic"
      then set "Authorization" (basic_auth (cred "username" creds) (cred "password" creds)) h
      else if auth_type == codes "bearer"
      then set "Authorization" (text_append "Bearer " (cred "bearer_token" creds)) h
      else if auth_type == codes "custom_header"
      then (if cred "custom_header_name" creds == ""
          then h
          else set (cred "custom_header_name" creds) (cred "custom_header_value" creds) h)
      else h

  -- All values that a request gives under the names of one header, in order.
  abbrev pub given : String → Header → List String
  given j [] = []
  given j ((k, vs) ∷ rest) = if canonical k == j then vs ++ given j rest else given j rest

  abbrev pub merge : Option (List String) → List String → Option (List String)
  merge none [] = none
  merge none (v ∷ vs) = some (v ∷ vs)
  merge (some ws) vs = some (ws ++ vs)

  merge_nil : (o : Option (List String)) → merge o [] ≡ o
  merge_nil none = refl
  merge_nil (some ws) = ap some (append-nil ws)

  merge-append :
      (o : Option (List String)) (vs us : List String) → merge (merge o vs) us ≡ merge o (vs ++ us)
  merge-append none [] us = refl
  merge-append none (v ∷ vs) us = refl
  merge-append (some ws) vs us = ap some (append_assoc ws vs us)

  merge-add :
      (o : Option (List String)) (v : String) → merge o (v ∷ []) ≡ some (values o ++ (v ∷ []))
  merge-add none v = refl
  merge-add (some ws) v = refl

  lookup-add_all :
      (j k : String) (vs : List String) (h : Header)
      → lookup j (add_all k vs h) ≡ (if canonical k == j then merge (lookup j h) vs else lookup j h)
  unfolding add_all
  lookup-add_all j k [] h = ground (arith, merge_nil (lookup j h))
  lookup-add_all j k (v ∷ vs) h = ground (
    arith,
    lookup-add_all j k vs (add k v h),
    lookup-insert (canonical k) j (values (lookup (canonical k) h) ++ (v ∷ [])) h,
    merge-add (lookup j h) v,
    merge-append (lookup j h) (v ∷ []) vs,
    eq_iff (canonical k) j,
  )

  lookup-copy_header :
      (j : String) (req h : Header)
      → lookup j (copy_header req h) ≡ merge (lookup j h) (given j req)
  unfolding copy_header
  lookup-copy_header j [] h = sym (merge_nil (lookup j h))
  lookup-copy_header j ((k, vs) ∷ rest) h = ground (
    arith,
    lookup-copy_header j rest (add_all k vs h),
    lookup-add_all j k vs h,
    merge-append (lookup j h) vs (given j rest),
  )

  -- The header that carries the credentials of a datasource, with its value.
  abbrev pub credential : Bytes → Map String → Option (String × String)
  credential auth_type creds =
      if auth_type == codes "basic"
      then some ("Authorization", basic_auth (cred "username" creds) (cred "password" creds))
      else if auth_type == codes "bearer"
      then some ("Authorization", text_append "Bearer " (cred "bearer_token" creds))
      else if auth_type == codes "custom_header"
      then (if cred "custom_header_name" creds == ""
          then none
          else some (cred "custom_header_name" creds, cred "custom_header_value" creds))
      else none

  abbrev pub with_credential :
      Option (String × String) → String → Option (List String) → Option (List String)
  with_credential none j sent = sent
  with_credential (some (name, value)) j sent =
      if canonical name == j then some (value ∷ []) else sent

  -- Each header that is sent upstream has the values that the request gives under its names, in
  -- their order, but the header of the credentials has the datasource's value and no other.
  pub inject_auth_lem :
      (auth_type : Bytes) (creds : Map String) (req : Header) (j : String)
      → lookup j (inject_auth auth_type creds (copy_header req []))
        ≡ with_credential (credential auth_type creds) j (merge none (given j req))
  unfolding inject_auth
  inject_auth_lem auth_type creds req j =
      let sent = copy_header req [] in
      ground (
        arith,
        lookup-copy_header j req [],
        lookup_empty j,
        lookup-insert (canonical "Authorization") j
            (basic_auth (cred "username" creds) (cred "password" creds) ∷ []) sent,
        lookup-insert (canonical "Authorization") j
            (text_append "Bearer " (cred "bearer_token" creds) ∷ []) sent,
        lookup-insert (canonical (cred "custom_header_name" creds)) j
            (cred "custom_header_value" creds ∷ []) sent,
      )
