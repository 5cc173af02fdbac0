-- ===== src/Client/Requests/Replay.antt =====
-- A request that was accepted is not accepted again.
use tok_hub.Prelude.{
  ◌+◌, ◌*◌, ◌≤◌, ◌<◌, String, ◌≡◌, ◌≢◌, refl, sym, subst, inl, inr, true, false, ◌||◌, none, some,
  ◌==◌, arith, Bool-cases, Option-cases,
}
use tok_hub.Prelude.Text.{trim_space}
use tok_hub.Clock.{Time, minute}
use tok_hub.Client.{ConnectorRow, ClientDb}
use tok_hub.Client.Connectors.{authenticate_ai_client_connector}
use tok_hub.Client.Signing.{Stamp, Signatures, unix_time, is_stale, verify_request}
use tok_hub.Client.Requests.{
  NonceStore, ClientRequest, RequestAnswer, accepted, rejected, RequestError, not_admitted,
  invalid_body, connector_unauthorized, signature_invalid, nonce_store_unavailable, nonce_replayed,
  bearer_token, parse_int, nonce_key, use_official_client_nonce, use_nonce, check_request,
  signed_ai_client_connector,
}

abbrev key_of : ConnectorRow → String → String
key_of c nonce = nonce_key (trim_space c.id) (trim_space (trim_space nonce))

module _ {S B : Type 0} (store : NonceStore S) (o : Signatures B) (hash : String → String) where
  -- The three ways of a request: it leaves the store, or its nonce is used: fresh, or
  -- not fresh or not told by the store.
  data Handled (s : S) (nonce timestamp : String) (now at : Time) : RequestAnswer × S → Type 0 where
    turned_away :
        (a : RequestAnswer)
        → ((c : ConnectorRow) (body : String) → a ≢ accepted c body)
        → Handled s nonce timestamp now at (a, s)
    let_in :
        (c : ConnectorRow) (body : String) (t : Stamp)
        → parse_int (trim_space timestamp) ≡ some t
        → is_stale t now ≡ false
        → (store.set_nx s (key_of c nonce) (2 * minute) at).0 ≡ some true
        → Handled s nonce timestamp now at
            (accepted c body, (store.set_nx s (key_of c nonce) (2 * minute) at).1)
    not_fresh :
        (c : ConnectorRow) (a : RequestAnswer)
        → ((d : ConnectorRow) (body : String) → a ≢ accepted d body)
        → Handled s nonce timestamp now at (a, (store.set_nx s (key_of c nonce) (2 * minute) at).1)

  rejected_apart :
      (a : RequestAnswer) (e : RequestError)
      → a ≡ rejected e
      → (c : ConnectorRow) (body : String) → a ≢ accepted c body
  rejected_apart a e p c body q = absurd cc

  refused-Handled :
      (s : S) (nonce timestamp : String) (now at : Time) (x : RequestAnswer × S)
      → (e : RequestError) → x ≡ (rejected e, s)
      → Handled s nonce timestamp now at x
  refused-Handled s nonce timestamp now at x e p =
      subst (λ y. Handled s nonce timestamp now at y) (sym p)
        (turned_away (rejected e) (rejected_apart _ e refl))

  verify-fresh :
      (public_key signature method path body : String) (t : Stamp) (nonce : String) (now : Time)
      → verify_request o public_key signature method path body t nonce now ≡ none
      → is_stale t now ≡ false
  unfolding verify_request
  verify-fresh public_key signature method path body t nonce now e = ground arith

  use-Handled :
      (s : S) (c : ConnectorRow) (nonce timestamp body : String) (t : Stamp) (now at : Time)
      → parse_int (trim_space timestamp) ≡ some t
      → is_stale t now ≡ false
      → Handled s nonce timestamp now at (use_nonce store s c (trim_space nonce) body at)
  unfolding use_nonce use_official_client_nonce
  use-Handled s c nonce timestamp body t now at e f =
      elim (Bool-cases (trim_space c.id == "" || trim_space (trim_space nonce) == "")) [
        | inl blank ↦
            rw (use_nonce, use_official_client_nonce, blank)
              (turned_away (rejected nonce_store_unavailable) (rejected_apart _ _ refl))
        | inr given ↦ elim (Option-cases (store.set_nx s (key_of c nonce) (2 * minute) at).0) [
          | inl broken ↦
              rw (use_nonce, use_official_client_nonce, given, broken)
                (not_fresh c (rejected nonce_store_unavailable) (rejected_apart _ _ refl))
          | inr (true, fresh) ↦
              rw (use_nonce, use_official_client_nonce, given, fresh) (let_in c body t e f fresh)
          | inr (false, used) ↦
              rw (use_nonce, use_official_client_nonce, given, used)
                (not_fresh c (rejected nonce_replayed) (rejected_apart _ _ refl))
        ]
      ]

  check-Handled :
      (s : S) (c : ConnectorRow) (r : ClientRequest) (body : String) (now at : Time)
      → Handled s r.nonce r.timestamp now at (check_request store o hash s c r body now at)
  unfolding check_request
  check-Handled s c r body now at = elim (Option-cases (parse_int (trim_space r.timestamp))) [
    | inl no_number ↦
        rw (check_request, no_number)
          (turned_away (rejected signature_invalid) (rejected_apart _ _ refl))
    | inr (t, e) ↦
        elim (Option-cases (
          verify_request o c.public_key r.signature r.method r.path body t (trim_space r.nonce)
            now)) [
              | inr (wrong, v) ↦
                  rw (check_request, e, v)
                    (turned_away (rejected signature_invalid) (rejected_apart _ _ refl))
              | inl v ↦
                  rw (check_request, e, v)
                    (use-Handled s c r.nonce r.timestamp body t now at e (
                      verify-fresh c.public_key r.signature r.method r.path body t
                        (trim_space r.nonce) now v))
            ]
  ]

  signed-Handled :
      (db : ClientDb) (s : S) (r : ClientRequest) (now at : Time)
      → Handled s r.nonce r.timestamp now at (signed_ai_client_connector store o hash db s r now at)
  unfolding signed_ai_client_connector
  signed-Handled db s r now at = elim (Bool-cases r.is_admitted) [
    | inr closed ↦
        rw (signed_ai_client_connector, closed)
          (turned_away (rejected not_admitted) (rejected_apart _ _ refl))
    | inl opened ↦ elim (Option-cases r.body) [
      | inl long ↦
          rw (signed_ai_client_connector, opened, long)
            (turned_away (rejected invalid_body) (rejected_apart _ _ refl))
      | inr (body, b) ↦ elim (Option-cases (bearer_token r.authorization)) [
        | inl bare ↦
            rw (signed_ai_client_connector, opened, b, bare)
              (turned_away (rejected connector_unauthorized) (rejected_apart _ _ refl))
        | inr (token, bearer) ↦
            elim (Option-cases (authenticate_ai_client_connector hash db token)) [
              | inl unknown ↦
                  rw (signed_ai_client_connector, opened, b, bearer, unknown)
                    (turned_away (rejected connector_unauthorized) (rejected_apart _ _ refl))
              | inr (c, known) ↦
                  rw (signed_ai_client_connector, opened, b, bearer, known)
                    (check-Handled s c r body now at)
            ]
      ]
    ]
  ]

  -- Any requests, of any connectors, over any tables.
  pub data Requests (s : S) : S → Type 0 where
    none_yet : Requests s s
    then_one :
        {s' : S}
        → Requests s s'
        → (db : ClientDb) (r : ClientRequest) (now at : Time)
        → Requests s (signed_ai_client_connector store o hash db s' r now at).1

  Handled-keeps :
      (s : S) (nonce timestamp : String) (now at : Time) (x : RequestAnswer × S) (key : String)
      (until : Time)
      → Handled s nonce timestamp now at x
      → store.Held s key until
      → store.Held x.1 key until
  Handled-keeps s nonce timestamp now at _ key until (turned_away a h) held = held
  Handled-keeps s nonce timestamp now at _ key until (let_in c body t e f fresh) held =
      store.keeps-Held s key (key_of c nonce) until (2 * minute) at held
  Handled-keeps s nonce timestamp now at _ key until (not_fresh c a h) held =
      store.keeps-Held s key (key_of c nonce) until (2 * minute) at held

  Requests-keep :
      {s s' : S} (key : String) (until : Time)
      → Requests s s'
      → store.Held s key until
      → store.Held s' key until
  Requests-keep key until none_yet held = held
  Requests-keep key until (then_one {s' = mid} rs db r now at) held =
      Handled-keeps mid r.nonce r.timestamp now at _ key until (signed-Handled db mid r now at)
        (Requests-keep key until rs held)

  -- What an accepted request leaves.
  record LetIn (s : S) (c : ConnectorRow) (nonce timestamp : String) (now at : Time) (s' : S)
      : Type 0 where
    stamp : Stamp
    parsed : parse_int (trim_space timestamp) ≡ some stamp
    in_time : is_stale stamp now ≡ false
    was_fresh : (store.set_nx s (key_of c nonce) (2 * minute) at).0 ≡ some true
    held : store.Held s' (key_of c nonce) (at + 2 * minute)

  accepted-LetIn :
      (s : S) (nonce timestamp : String) (now at : Time) (x : RequestAnswer × S) (c : ConnectorRow)
      (body : String)
      → Handled s nonce timestamp now at x
      → x.0 ≡ accepted c body
      → LetIn s c nonce timestamp now at x.1
  accepted-LetIn s nonce timestamp now at _ c body (turned_away a h) e = absurd (h c body e)
  accepted-LetIn s nonce timestamp now at _ c body (not_fresh d a h) e = absurd (h c body e)
  accepted-LetIn s nonce timestamp now at _ c body (let_in d body' t p f fresh) e =
      let same : d ≡ c = cc in
      subst
        (λ k. LetIn s k nonce timestamp now at (store.set_nx s (key_of d nonce) (2 * minute) at).1)
        same
        (record {
          stamp = t;
          parsed = p;
          in_time = f;
          was_fresh = fresh;
          held = store.set-Held s (key_of d nonce) (2 * minute) at fresh;
        })

  -- After a request was accepted, whatever requests come, a request of the same connector with the
  -- same timestamp and nonce is not accepted if its nonce is used within a minute of the timestamp.
  pub request_is_accepted_once :
      (db : ClientDb) (s : S) (r : ClientRequest) (now at : Time) (c : ConnectorRow) (body : String)
      (t : Stamp)
      → now ≤ at
      → parse_int (trim_space r.timestamp) ≡ some t
      → (signed_ai_client_connector store o hash db s r now at).0 ≡ accepted c body
      → {s' : S} → Requests (signed_ai_client_connector store o hash db s r now at).1 s'
      → (db' : ClientDb) (r' : ClientRequest) (now' at' : Time) (c' : ConnectorRow) (body' : String)
      → c'.id ≡ c.id
      → r'.timestamp ≡ r.timestamp
      → r'.nonce ≡ r.nonce
      → at' < unix_time t + minute
      → (signed_ai_client_connector store o hash db' s' r' now' at').0 ≢ accepted c' body'
  request_is_accepted_once db s r now at c body t later parsed first {s'} rs db' r' now' at' c'
        body' id stamp nonce soon again =
      let a =
        accepted-LetIn s r.nonce r.timestamp now at _ c body (signed-Handled db s r now at) first in
      let b =
        accepted-LetIn s' r'.nonce r'.timestamp now' at' _ c' body'
          (signed-Handled db' s' r' now' at') again in
      let held = Requests-keep (key_of c r.nonce) (at + 2 * minute) rs a.held in
      let timely = a.in_time in
      let stamps : a.stamp ≡ t = (let p = a.parsed in cc) in
      let in_time : is_stale t now ≡ false = subst (λ x. is_stale x now ≡ false) stamps a.in_time in
      let bound : unix_time t ≤ now + minute = unfold is_stale in ground arith in
      let refused : (store.set_nx s' (key_of c r.nonce) (2 * minute) at').0 ≢ some true =
        store.Held-refuses s' (key_of c r.nonce) (at + 2 * minute) (2 * minute) at' held
          (omega (arith, bound, soon, later)) in
      let fresh : (store.set_nx s' (key_of c r.nonce) (2 * minute) at').0 ≡ some true =
        (let f = b.was_fresh in
          subst
            (λ x.
              (store.set_nx s' (nonce_key (trim_space x) (trim_space (trim_space r.nonce)))
                (2 * minute) at').0
              ≡ some true)
            id
            (subst
              (λ x.
                (store.set_nx s' (nonce_key (trim_space c'.id) (trim_space (trim_space x)))
                  (2 * minute) at').0
                ≡ some true)
              nonce f)) in
      refused fresh
