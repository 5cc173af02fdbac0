-- ===== src/Client/Requests.antt =====
-- The authentication of a connector's requests, signedAIClientConnector of
-- internal/api/client_connector_handlers.go, and UseOfficialClientNonce of internal/gateway/cache.go, on
-- which it relies against replays. Whether the feature is on and the transport secure is an argument, and
-- so is the body, none where it is too long to be read.
pub mod Replay
use tok_hub.Prelude.{
  ℕ, ◌+◌, ◌*◌, ◌<◌, String, ◌≡◌, ◌≢◌, Bool, true, false, not, ◌&&◌, ◌||◌, Option, none, some, ◌==◌,
  eqb, ltb, if◌then◌else◌,
}
use Prim.Native.Char.{code}
use Prim.Native.String.{[], ◌∷◌, ◌++◌}
use tok_hub.Prelude.Text.{trim_space, equal_fold}
use tok_hub.Clock.{Time, Duration, minute}
use tok_hub.Clock.Date.{digits}
use tok_hub.Client.{ConnectorRow, ClientDb}
use tok_hub.Client.Connectors.{authenticate_ai_client_connector}
use tok_hub.Client.Signing.{Stamp, since, before, Signatures, verify_request}

-- SETNX with a time to live, on the keys of Redis: whether it set the key, or none where the command
-- fails. What it is relied on for: a key that was set is not set again before its time to live is over,
-- whatever other commands come and whether they fail.
pub record NonceStore (S : Type 0) : Type 1 where
  pub set_nx : S → String → Duration → Time → Option Bool × S
  pub Held : S → String → Time → Type 0
  pub set-Held :
      (s : S) (key : String) (ttl : Duration) (at : Time)
      → (set_nx s key ttl at).0 ≡ some true
      → Held (set_nx s key ttl at).1 key (at + ttl)
  pub keeps-Held :
      (s : S) (key other : String) (until : Time) (ttl : Duration) (at : Time)
      → Held s key until
      → Held (set_nx s other ttl at).1 key until
  pub Held-refuses :
      (s : S) (key : String) (until : Time) (ttl : Duration) (at : Time)
      → Held s key until
      → at < until
      → (set_nx s key ttl at).0 ≢ some true

-- What the handler reads of a request.
pub record ClientRequest : Type 0 where
  pub is_admitted : Bool
  pub body : Option String
  pub authorization : String
  pub timestamp : String
  pub nonce : String
  pub signature : String
  pub method : String
  pub path : String

pub data RequestError : Type 0 where
  not_admitted invalid_body connector_unauthorized signature_invalid nonce_store_unavailable
        nonce_replayed :
      RequestError

pub data RequestAnswer : Type 0 where
  accepted : ConnectorRow → String → RequestAnswer
  rejected : RequestError → RequestAnswer

-- strings.Cut at the first space.
unfoldable pub cut_space : String → Option (String × String)
cut_space [] = none
cut_space (c ∷ s) =
    let rest = cut_space s in
    if eqb (code c) 32
    then some ("", s)
    else elim rest [ none ↦ none | some (a, b) ↦ some (c ∷ a, b) ]

-- The token of a header `Bearer <token>`.
unfoldable pub bearer_token : String → Option String
bearer_token header = elim (cut_space (trim_space header)) [
  | none ↦ none
  | some (scheme, token) ↦ if equal_fold scheme "Bearer" then some token else none
]

-- The number of an int64's digits, with its sign, where it is in the range.
unfoldable pub in_range : Bool → Option ℕ → Option Stamp
in_range negative none = none
in_range negative (some n) =
    if negative
    then (if ltb 9_223_372_036_854_775_808 n then none else some (before n))
    else if ltb 9_223_372_036_854_775_807 n
    then none
    else some (since n)

unfoldable pub parse_digits : Bool → String → Option Stamp
parse_digits negative [] = none
parse_digits negative (c ∷ s) = in_range negative (digits 0 (c ∷ s))

-- strconv.ParseInt in base 10 and of 64 bits.
unfoldable pub parse_int : String → Option Stamp
parse_int [] = none
parse_int (c ∷ s) =
    if eqb (code c) 45
    then parse_digits true s
    else if eqb (code c) 43
    then parse_digits false s
    else parse_digits false (c ∷ s)

-- The key of a nonce. The cache takes the texts trimmed, and refuses blank ones.
unfoldable pub nonce_key : String → String → String
nonce_key connector nonce = "official-client:nonce:" ++ connector ++ ":" ++ nonce

module _ {S : Type 0} (store : NonceStore S) where
  -- UseOfficialClientNonce: none is an error.
  unfoldable pub use_official_client_nonce : S → String → String → Duration → Time → Option Bool × S
  use_official_client_nonce s connector nonce ttl at =
      let c = trim_space connector in
      let n = trim_space nonce in
      let ttl' = if ltb ttl (2 * minute) then 2 * minute else ttl in
      let answer = store.set_nx s (nonce_key c n) ttl' at in
      if c == "" || n == "" then (none, s) else answer

  -- The end of the handler: `at` is the time at which the nonce is used.
  unfoldable pub use_nonce : S → ConnectorRow → String → String → Time → RequestAnswer × S
  use_nonce s connector nonce body at =
      let used = use_official_client_nonce s connector.id nonce (2 * minute) at in
      (
        elim used.0 [
          | none ↦ rejected nonce_store_unavailable
          | some fresh ↦ if fresh then accepted connector body else rejected nonce_replayed
        ],
        used.1,
      )

module _ {S B : Type 0} (store : NonceStore S) (o : Signatures B) (hash : String → String) where
  -- From the timestamp on: `now` is the time of the verification.
  unfoldable pub check_request :
      S → ConnectorRow → ClientRequest → String → Time → Time → RequestAnswer × S
  check_request s connector r body now at = elim (parse_int (trim_space r.timestamp)) [
    | none ↦ (rejected signature_invalid, s)
    | some timestamp ↦
        elim (verify_request o connector.public_key r.signature r.method r.path body timestamp
          (trim_space r.nonce) now) [
            | some e ↦ (rejected signature_invalid, s)
            | none ↦ use_nonce store s connector (trim_space r.nonce) body at
          ]
  ]

  -- signedAIClientConnector
  unfoldable pub signed_ai_client_connector :
      ClientDb → S → ClientRequest → Time → Time → RequestAnswer × S
  signed_ai_client_connector db s r now at =
      if not r.is_admitted then (rejected not_admitted, s) else elim r.body [
        | none ↦ (rejected invalid_body, s)
        | some body ↦ elim (bearer_token r.authorization) [
          | none ↦ (rejected connector_unauthorized, s)
          | some token ↦ elim (authenticate_ai_client_connector hash db token) [
            | none ↦ (rejected connector_unauthorized, s)
            | some connector ↦ check_request s connector r body now at
          ]
        ]
      ]
