-- ===== src/Policy/Resolve/Laws.antt =====
-- What the settings that resolve_policy returns have gone through.
use docker_development_envir.Common.{
  Bool, true, false, not, ◌&&◌, ◌==◌, nat_eq, list_eq, [], ◌∷◌, Option, Text, ◌≡◌, refl, sym, ◌∙◌,
  ap, ok, codes, contains, all, is_empty, ◌≤◌, ◌⊎◌, inl, inr, Bool-cases, arith, if◌then◌else◌,
}
use docker_development_envir.Common.Numbers.{number_of}
use docker_development_envir.Common.Results.{ensure, >>=-ok, ensure-ok, ok-injective}
use docker_development_envir.Settings.{Values, value_of}
use docker_development_envir.Settings.Dotenv.{is_space}
use docker_development_envir.Policy.{bad_zone, bad_trust, forgeable, setting_or}
use docker_development_envir.Policy.Switches.{off_on, resolve_switches}
use docker_development_envir.Policy.Checks.{
  IpAddress, check_features, force_https, check_numbers, direct_clients, publish_address,
  check_debug, is_zone, xdebug_mode,
}
use docker_development_envir.Policy.Pool.{check_pool}
use docker_development_envir.Policy.Pool.Laws.{check_pool_bounds}
use docker_development_envir.Policy.Resolve.{Policy, resolve_resources, resolve_policy}

no_blind_trust :
    (direct blank : Bool) (value : Text)
    → contains (if is_empty value then codes "off" else value) off_on ≡ true
    → not (direct && not blank && (if is_empty value then codes "off" else value) == codes "off")
      ≡ true
    → direct ≡ true
    → (blank ≡ true) ⊎ (value ≡ codes "on")
no_blind_trust direct true value h k d = inl refl
no_blind_trust direct false [] h k d = absurd (ground arith)
no_blind_trust direct false (c ∷ cs) h k d = elim (Bool-cases (codes "on" == (c ∷ cs))) [
  | inl same ↦ inr (sym ((list_eq.beq_iff (codes "on") (c ∷ cs)).0 same))
  | inr other ↦
      (let off : codes "off" ≡ c ∷ cs = (list_eq.beq_iff (codes "off") (c ∷ cs)).0 (ground arith) in
        let same = (list_eq.beq_iff (c ∷ cs) (codes "off")).1 (sym off) in absurd (ground arith))
]

module _ (ip_address : Text → Option IpAddress) (settings : Values) (environment : Text) where
  -- The steps that returned before the policy did.
  record Passed (p : Policy) : Type 0 where
    switched : resolve_switches settings environment ≡ ok p.switches
    reached : direct_clients ip_address settings ≡ ok p.direct
    limited :
        resolve_resources settings environment
        ≡ ok (record { limits = p.limits; sizes = p.sizes; pool = p.pool })
    pooled : check_pool p.pool ≡ ok tt

  Passed-resolve_policy :
      {p : Policy} → resolve_policy ip_address settings environment ≡ ok p → Passed p
  unfolding resolve_policy
  Passed-resolve_policy {p} h =
      let a = >>=-ok (resolve_switches settings environment) _ h in
      let b = >>=-ok (check_features settings) _ a.2 in
      let c = >>=-ok (force_https settings environment) _ b.2 in
      let d = >>=-ok (check_numbers settings) _ c.2 in
      let e = >>=-ok (direct_clients ip_address settings) _ d.2 in
      let f =
        >>=-ok
          (ensure (is_zone (setting_or settings (codes "TZ") (codes "Europe/Vilnius"))) bad_zone) _
          e.2 in
      let g = >>=-ok (xdebug_mode settings environment) _ f.2 in
      let i = >>=-ok (resolve_resources settings environment) _ g.2 in
      let j = >>=-ok (check_pool i.0.pool) _ i.2 in
      let k = >>=-ok (check_debug ip_address settings) _ j.2 in
      let built : Policy = record {
        switches = a.0;
        https = c.0;
        direct = e.0;
        xdebug = g.0;
        limits = i.0.limits;
        sizes = i.0.sizes;
        pool = i.0.pool;
      } in
      let same : built ≡ p = ok-injective k.2 in
      record {
        switched = a.1 ∙ ap (λ (q : Policy). ok q.switches) same;
        reached = e.1 ∙ ap (λ (q : Policy). ok q.direct) same;
        limited =
            i.1
            ∙ ap (λ (q : Policy). ok (record { limits = q.limits; sizes = q.sizes; pool = q.pool }))
                same;
        pooled = ap (λ (q : Policy). check_pool q.pool) (sym same) ∙ j.1;
      }

  -- The pool of an accepted policy has from 1 to 100000 children, and no more of each kind of waiting
  -- process than it may have: 1 <= MIN_SPARE <= START <= MAX_SPARE <= MAX_CHILDREN <= 100000.
  pub resolve_policy_bounds :
      {p : Policy}
      → resolve_policy ip_address settings environment ≡ ok p
      → (1 ≤ number_of 0 p.pool.min_spare)
        × (number_of 0 p.pool.min_spare ≤ number_of 0 p.pool.start_servers)
        × (number_of 0 p.pool.start_servers ≤ number_of 0 p.pool.max_spare)
        × (number_of 0 p.pool.max_spare ≤ number_of 0 p.pool.max_children)
        × (number_of 0 p.pool.max_children ≤ 100000)
  resolve_policy_bounds {p} h = check_pool_bounds p.pool (Passed-resolve_policy h).pooled

  -- Where clients reach the published ports themselves, an accepted policy trusts no proxies, unless the
  -- settings say TRUSTED_PROXIES_DIRECT=on.
  pub trusted-resolve_policy :
      {p : Policy}
      → resolve_policy ip_address settings environment ≡ ok p
      → p.direct ≡ true
      → (all is_space (value_of (codes "TRUSTED_PROXIES") settings) ≡ true)
        ⊎ (value_of (codes "TRUSTED_PROXIES_DIRECT") settings ≡ codes "on")
  unfolding direct_clients
  trusted-resolve_policy {p} h d =
      let passed = Passed-resolve_policy h in
      let trust = setting_or settings (codes "TRUSTED_PROXIES_DIRECT") (codes "off") in
      let blank = all is_space (value_of (codes "TRUSTED_PROXIES") settings) in
      let a = >>=-ok (publish_address ip_address _) _ passed.reached in
      let b = >>=-ok (ensure (contains trust off_on) bad_trust) _ a.2 in
      let known = ensure-ok (contains trust off_on) bad_trust b.1 in
      let c = >>=-ok (ensure (not (a.0 && not blank && trust == codes "off")) forgeable) _ b.2 in
      let safe = ensure-ok (not (a.0 && not blank && trust == codes "off")) forgeable c.1 in
      let direct : a.0 ≡ true = ok-injective c.2 ∙ d in
      no_blind_trust a.0 blank (value_of (codes "TRUSTED_PROXIES_DIRECT") settings) known safe
        direct
