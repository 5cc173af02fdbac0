-- ===== src/Policy/Modes.antt =====
-- Lemmas on the modes and on the policies that are compiled in.
use tok_hub.Prelude.{
  String, ◌≡◌, refl, sym, ◌∙◌, ap, subst, inl, inr, Bool, true, false, ◌||◌, Option, none, some,
  List, [], ◌∷◌, ◌==◌, if◌then◌else◌, All, Bool-cases, Option-cases,
}
use tok_hub.Prelude.Text.{trim_space, to_lower}
use tok_hub.Clock.{Time}
use tok_hub.Policy.{
  PolicyError, ProviderPolicy, provider_policies, find_policy, provider_policy_for, connection_mode,
  connection_mode_for_auth_method, allows_mode, allows, with_kill_switch, provider_mode_allowed,
  policy_denied,
}

-- The spelling that `Allows` brings a mode to.
IsNormal : String → Type 0
IsNormal mode = to_lower (trim_space mode) ≡ mode

IsNormal-if : (b : Bool) (x y : String) → IsNormal x → IsNormal y → IsNormal (if b then x else y)
IsNormal-if true x y h k = h
IsNormal-if false x y h k = k

connection_mode-IsNormal : (auth : String) → IsNormal (connection_mode auth)
unfolding connection_mode IsNormal trim_space to_lower
connection_mode-IsNormal auth =
    IsNormal-if (auth == "api_key" || auth == "api_key_guided") _ _ refl (
      IsNormal-if (auth == "oauth") _ _ refl (
        IsNormal-if (auth == "official_client") _ _ refl (
          IsNormal-if (auth == "deepseek_web_token" || auth == "codex_oauth") _ _ refl
            (IsNormal-if (auth == "opencli_browser") _ _ refl refl))))

pub allows-connection_mode :
    (p : ProviderPolicy) (auth : String) (lab : Bool) (now : Time)
    → allows p (connection_mode_for_auth_method auth) lab now
      ≡ allows_mode p (connection_mode_for_auth_method auth) lab now
unfolding allows connection_mode_for_auth_method IsNormal
allows-connection_mode p auth lab now =
    ap (λ mode. allows_mode p mode lab now) (connection_mode-IsNormal (to_lower (trim_space auth)))

-- What holds of all policies of a list holds of the one that is found.
found_policy {κ} :
    (P : ProviderPolicy → Type κ) (provider : String) (policies : List ProviderPolicy)
    (p : ProviderPolicy)
    → All P policies
    → find_policy provider policies ≡ some p
    → P p
unfolding find_policy
found_policy P provider [] p ps e = absurd cc
found_policy P provider (q ∷ qs) p (h, hs) e = elim (Bool-cases (q.provider == provider)) [
  | inl here ↦
      (let e' : find_policy provider (q ∷ qs) ≡ some q = rw (find_policy, here) refl in
        let same : q ≡ p = cc in subst P same h)
  | inr other ↦ found_policy P provider qs p hs (
      let e' : find_policy provider (q ∷ qs) ≡ find_policy provider qs =
        rw (find_policy, other) refl in
      sym e' ∙ e)
]

provider_policy_for-found {κ} :
    (P : ProviderPolicy → Type κ) (provider : String) (p : ProviderPolicy)
    → All P provider_policies
    → provider_policy_for provider ≡ some p
    → P p
unfolding provider_policy_for
provider_policy_for-found P provider p ps e =
    found_policy P (to_lower (trim_space provider)) provider_policies p ps e

-- A verdict on every compiled policy and on an unknown provider is a verdict on every provider.
pub for_every_provider {κ} :
    (P : Option PolicyError → Type κ) (provider auth : String) (lab : Bool) (now : Time)
    (killed : Bool)
    → P (
        if connection_mode_for_auth_method auth == "official_api" then none else some policy_denied)
    → All
        (λ p.
          P (
            allows_mode (with_kill_switch killed p) (connection_mode_for_auth_method auth) lab now))
        provider_policies
    → P (provider_mode_allowed provider auth lab now killed)
unfolding provider_mode_allowed
for_every_provider P provider auth lab now killed unknown known =
    elim (Option-cases (provider_policy_for provider)) [
      | inl e ↦ rw (e, provider_mode_allowed) unknown
      | inr (p, e) ↦
          rw
            (
              e,
              provider_mode_allowed,
              allows-connection_mode (with_kill_switch killed p) auth lab now,
            )
            (provider_policy_for-found
              (λ q. P (
                allows_mode (with_kill_switch killed q) (connection_mode_for_auth_method auth) lab
                  now))
              provider p known e)
    ]
