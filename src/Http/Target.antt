-- ===== src/Http/Target.antt =====
-- pkg/proxy/http/proxy.go: the URL of a request.
use forager.Prelude.{
  Bool, false, not, ◌&&◌, ◌||◌, Option, none, some, [], ◌∷◌, ◌++◌, ◌==◌, nat_eq, if◌then◌else◌,
  Result, ok, err,
}
use forager.Prelude.Bytes.{Bytes, bytes_eq}
use forager.Http.{Url, HttpLib, HttpError, not_configured, invalid_url, not_relative}

-- strings.HasSuffix(s, "/")
unfoldable pub ends_in_slash : Bytes → Bool
ends_in_slash [] = false
ends_in_slash (c ∷ []) = c == b'/'
ends_in_slash (c ∷ d ∷ s) = ends_in_slash (d ∷ s)

-- A slash at the join that both parts have is written once.
unfoldable pub join_path : Bytes → Bytes → Bytes
unfolding ends_in_slash
join_path base [] = base
join_path base (c ∷ s) = if ends_in_slash base && c == b'/' then base ++ s else base ++ (c ∷ s)

abbrev pub target_of : Url → Url → Url
target_of base ref = record {
  scheme = base.scheme;
  user = base.user;
  host = base.host;
  hostname = base.hostname;
  port = base.port;
  path = join_path base.path ref.path;
  raw_path = [];
  raw_query = ref.raw_query;
  fragment = ref.fragment;
}

-- `resolveTargetURL`, up to the printing of the URL.
unfoldable pub resolve_target_url : HttpLib → Option Url → Bytes → Result HttpError Url
unfolding join_path
resolve_target_url lib none req_url = err not_configured
resolve_target_url lib (some base) req_url = elim (lib.parse_url req_url) [
  | none ↦ err invalid_url
  | some ref ↦
      if not (ref.scheme == []) || not (ref.host == [])
      then err not_relative
      else ok (target_of base ref)
]
