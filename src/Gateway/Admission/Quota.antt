-- ===== src/Gateway/Admission/Quota.antt =====
-- What an admission does to the quota of the key.
use tok_hub.Prelude.{
  ◌+◌, String, ◌≡◌, refl, ap, sym, ◌∙◌, ◌⊎◌, inl, inr, true, false, Option, none, some, List, [],
  ◌∷◌, ◌==◌, if◌then◌else◌, Bool-cases, eq_iff, eq_refl,
}
use tok_hub.Gateway.Admission.{GatewayKeyRow, has_quota, reserve_gateway_key_request}

abbrev pub one_more : GatewayKeyRow → GatewayKeyRow
one_more k = record k { requests_used = k.requests_used + 1 }

-- The row of a key.
unfoldable pub find_key : List GatewayKeyRow → String → Option GatewayKeyRow
find_key [] id = none
find_key (k ∷ ks) id = let rest = find_key ks id in if k.id == id then some k else rest

-- The key had quota, its row counts one request more, and no other row changed.
pub record Counted (before after : List GatewayKeyRow) (id : String) : Type 0 where
  pub row : GatewayKeyRow
  pub was : find_key before id ≡ some row
  pub had_quota : has_quota row ≡ true
  pub now : find_key after id ≡ some (one_more row)
  pub others :
      (other : String) → (other == id) ≡ false → find_key after other ≡ find_key before other

find_key-here :
    (k : GatewayKeyRow) (ks : List GatewayKeyRow) (id : String)
    → (k.id == id) ≡ true
    → find_key (k ∷ ks) id ≡ some k
unfolding find_key
find_key-here k ks id h = rw h refl

find_key-elsewhere :
    (k : GatewayKeyRow) (ks : List GatewayKeyRow) (id : String)
    → (k.id == id) ≡ false
    → find_key (k ∷ ks) id ≡ find_key ks id
unfolding find_key
find_key-elsewhere k ks id h = rw h refl

not_here : (a id other : String) → (a == id) ≡ true → (other == id) ≡ false → (a == other) ≡ false
not_here a id other h differs = elim (Bool-cases (a == other)) [
  | inr e ↦ e
  | inl e ↦
      (let p = (eq_iff a other).0 e in let q = (eq_iff a id).0 h in let r = eq_refl id in absurd cc)
]

-- A changed row is not found for the other ids.
other_row :
    (k k' : GatewayKeyRow) (ks : List GatewayKeyRow) (id other : String)
    → (k.id == id) ≡ true
    → k'.id ≡ k.id
    → (other == id) ≡ false
    → find_key (k' ∷ ks) other ≡ find_key (k ∷ ks) other
other_row k k' ks id other here same differs =
    let miss = not_here k.id id other here differs in
    find_key-elsewhere k' ks other (rw same miss) ∙ sym (find_key-elsewhere k ks other miss)

-- The rows behind one row change alike.
others_behind :
    (k : GatewayKeyRow) (ks ks' : List GatewayKeyRow) (other : String)
    → find_key ks' other ≡ find_key ks other
    → find_key (k ∷ ks') other ≡ find_key (k ∷ ks) other
unfolding find_key
others_behind k ks ks' other e = ap (λ rest. if k.id == other then some k else rest) e

pub reserve-Counted :
    (ks : List GatewayKeyRow) (id : String)
    → ((reserve_gateway_key_request ks id).0 ≡ true
        × Counted ks (reserve_gateway_key_request ks id).1 id)
      ⊎ ((reserve_gateway_key_request ks id).0 ≡ false
          × ((reserve_gateway_key_request ks id).1 ≡ ks))
unfolding reserve_gateway_key_request
reserve-Counted [] id = inr (refl, refl)
reserve-Counted (k ∷ ks) id = elim (Bool-cases (k.id == id)) [
  | inl here ↦ elim (Bool-cases (has_quota k)) [
    | inl has ↦
        rw (reserve_gateway_key_request, here, has)
          (inl (
            refl,
            record {
              row = k;
              was = find_key-here k ks id here;
              had_quota = has;
              now = find_key-here (one_more k) ks id here;
              others = λ other differs. other_row k (one_more k) ks id other here refl differs;
            },
          ))
    | inr over ↦ rw (reserve_gateway_key_request, here, over) (inr (refl, refl))
  ]
  | inr elsewhere ↦ elim (reserve-Counted ks id) [
    | inl (reserved, counted) ↦
        rw (reserve_gateway_key_request, elsewhere)
          (inl (
            reserved,
            record {
              row = counted.row;
              was = find_key-elsewhere k ks id elsewhere ∙ counted.was;
              had_quota = counted.had_quota;
              now = find_key-elsewhere k _ id elsewhere ∙ counted.now;
              others = λ other differs. others_behind k ks _ other (counted.others other differs);
            },
          ))
    | inr (refused, same) ↦
        rw (reserve_gateway_key_request, elsewhere) (inr (refused, ap (λ rest. k ∷ rest) same))
  ]
]
