-- ===== src/Origins.antt =====
-- server/middleware/csrf.go and pkg/config/websocket.go: from which pages requests and connections may
-- come. net/url and the functions of strings are parameters.
use woongkie_talkie.Base.{
  String, Bool, true, false, not, ◌&&◌, ◌||◌, List, [], ◌∷◌, ◌++◌, Option, none, some,
  if◌then◌else◌, ◌==◌, any, map, keep,
}

-- Does CSRFProtect let a request through? `upgrade` and `requested_with` are headers.
unfoldable pub csrf_protect : String → String → String → Bool
csrf_protect method upgrade requested_with =
    method == "GET"
    || method == "HEAD"
    || method == "OPTIONS"
    || upgrade == "websocket"
    || requested_with == "XMLHttpRequest"

pub record Texts : Type 0 where
  -- url.Parse: the scheme and the host name
  pub parse_url : String → Option (String × String)
  pub split_comma : String → List String
  pub trim_space : String → String
  pub equal_fold : String → String → Bool
  -- what stands before the last colon, all where there is none
  pub without_port : String → String

module _ (texts : Texts) where
  open texts use {parse_url, split_comma, trim_space, equal_fold, without_port}

  unfoldable pub allowed_origins : String → String → List String
  allowed_origins is_dev env_origins =
      (if is_dev == "DEV" || is_dev == "dev" || is_dev == "develop"
        then "http://localhost" ∷ "https://localhost" ∷ "http://127.0.0.1" ∷ "https://127.0.0.1"
          ∷ []
        else [])
      ++ (if env_origins == ""
          then []
          else keep (λ o. not (o == "")) (map trim_space (split_comma env_origins)))

  -- Does an allowed origin fit the scheme and the host of a page?
  abbrev fits : String → String → String → Bool
  fits scheme host allowed = elim (parse_url allowed) [
    | none ↦ false
    | some (allowed_scheme, allowed_host) ↦
        equal_fold scheme allowed_scheme && equal_fold host allowed_host
  ]

  unfoldable pub check_origin : String → String → String → String → Bool
  unfolding allowed_origins
  check_origin is_dev env_origins host origin =
      if origin == "" then true else elim (parse_url origin) [
        | none ↦ false
        | some (scheme, origin_host) ↦ elim (allowed_origins is_dev env_origins) [
          | [] ↦ equal_fold origin_host (without_port host)
          | o ∷ os ↦ any (fits scheme origin_host) (o ∷ os)
        ]
      ]
