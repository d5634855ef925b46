-- ===== src/Policy/Pool/Laws.antt =====
-- The bounds of an accepted pool, and that the derived pool is accepted.
use docker_development_envir.Common.{
  ℕ, true, not, ◌==◌, nat_eq, list_eq, List, [], ◌∷◌, Text, ◌≡◌, refl, ok, codes, is_empty,
  contains, all, ltb, ◌*◌, ◌+◌, ◌/◌, ◌-◌, ◌≤◌, arith, Bool-cases, inl, inr, ◌⊎◌,
}
use native.Mathlib.Nat.{div-mul-le_self, mul-le-mul_right}
use docker_development_envir.Common.Numbers.{number_of, digits, number_of-digits, is_number-digits}
use docker_development_envir.Common.Members.{all-contains}
use docker_development_envir.Common.Results.{ensure, >>=-ok, ensure-ok}
use docker_development_envir.Settings.{Values, value_of}
use docker_development_envir.Policy.{setting_or}
use docker_development_envir.Policy.Pool.{
  max, Pool, fitting, pool_of, is_pool_number, is_ordered, check_size, check_pool,
}

check_size-ok :
    (name value : Text) {u : Unit {0}}
    → check_size name value ≡ ok u
    → (1 ≤ number_of 0 value) × (number_of 0 value ≤ 100000)
unfolding check_size is_pool_number
check_size-ok name value h =
    let numeric = >>=-ok (ensure (is_pool_number value) _) _ h in
    let small = ensure-ok (is_pool_number value) _ numeric.1 in
    let positive = ensure-ok (not (number_of 0 value == 0)) _ numeric.2 in
    (ground arith, ground arith)

-- A pool that the check accepts has from 1 to 100000 children, and no more of each kind of waiting
-- process than it may have: 1 <= MIN_SPARE <= START <= MAX_SPARE <= MAX_CHILDREN <= 100000.
pub check_pool_bounds :
    (pool : Pool) {u : Unit {0}}
    → check_pool pool ≡ ok u
    → (1 ≤ number_of 0 pool.min_spare)
      × (number_of 0 pool.min_spare ≤ number_of 0 pool.start_servers)
      × (number_of 0 pool.start_servers ≤ number_of 0 pool.max_spare)
      × (number_of 0 pool.max_spare ≤ number_of 0 pool.max_children)
      × (number_of 0 pool.max_children ≤ 100000)
unfolding check_pool is_ordered
check_pool_bounds pool h =
    let a = >>=-ok (check_size _ pool.max_children) _ h in
    let b = >>=-ok (check_size _ pool.start_servers) _ a.2 in
    let c = >>=-ok (check_size _ pool.min_spare) _ b.2 in
    let d = >>=-ok (check_size _ pool.max_spare) _ c.2 in
    let e = >>=-ok (ensure (is_pool_number pool.max_requests) _) _ d.2 in
    let children = check_size-ok _ pool.max_children a.1 in
    let spare = check_size-ok _ pool.min_spare c.1 in
    let ordered = ensure-ok (is_ordered pool) _ e.2 in
    (spare.0, ground arith, ground arith, ground arith, children.1)

setting_or-default :
    (settings : Values) (key default : Text)
    → value_of key settings ≡ []
    → setting_or settings key default ≡ default
setting_or-default settings key default h = rw h refl

fitting_bounds :
    (memory process : ℕ) → (2 ≤ fitting memory process) × (fitting memory process ≤ 256)
unfolding fitting
fitting_bounds memory process = ground arith

fitting_fits :
    (memory process : ℕ)
    → (fitting memory process ≡ 2) ⊎ (fitting memory process * process + 128 * 1024 ≤ memory)
unfolding fitting
fitting_fits memory process = elim (Bool-cases (ltb 2 ((memory - 128 * 1024) / process))) [
  | inl more ↦ inr (
      let all_fit = div-mul-le_self (memory - 128 * 1024) process in
      let fewer : fitting memory process ≤ (memory - 128 * 1024) / process = ground arith in
      let some_fit = mul-le-mul_right process fewer in ground arith)
  | inr less ↦ inl (ground arith)
]

check_size-digits : (name : Text) (n : ℕ) → 1 ≤ n → n ≤ 100000 → check_size name (digits n) ≡ ok tt
unfolding check_size is_pool_number
check_size-digits name n h k = rw (is_number-digits n, number_of-digits n) (ground arith)

-- The four sizes that a number of children gives.
abbrev derived : ℕ → Pool
derived n = record {
  max_children = digits n;
  start_servers = digits (max 1 (n / 4));
  min_spare = digits (max 1 (n / 4));
  max_spare = digits (max (max 1 (n / 4)) (n / 2));
  max_requests = codes "500";
}

check_pool-derived : (n : ℕ) → 2 ≤ n → n ≤ 256 → check_pool (derived n) ≡ ok tt
unfolding check_pool is_ordered is_pool_number
check_pool-derived n h k =
    rw
      (
        check_size-digits (codes "PHP_FPM_MAX_CHILDREN") n (omega arith) (omega arith),
        check_size-digits (codes "PHP_FPM_START_SERVERS") (max 1 (n / 4)) (ground arith)
            (ground arith),
        check_size-digits (codes "PHP_FPM_MIN_SPARE_SERVERS") (max 1 (n / 4)) (ground arith)
            (ground arith),
        check_size-digits (codes "PHP_FPM_MAX_SPARE_SERVERS") (max (max 1 (n / 4)) (n / 2))
            (ground arith) (ground arith),
        number_of-digits n,
        number_of-digits (max 1 (n / 4)),
        number_of-digits (max (max 1 (n / 4)) (n / 2)),
      )
      (ground arith)

abbrev pub pool_keys : List Text
pool_keys =
    codes "PHP_FPM_MAX_CHILDREN"
    ∷ codes "PHP_FPM_START_SERVERS"
    ∷ codes "PHP_FPM_MIN_SPARE_SERVERS"
    ∷ codes "PHP_FPM_MAX_SPARE_SERVERS"
    ∷ codes "PHP_FPM_MAX_REQUESTS"
    ∷ []

is_empty-eq : (t : Text) → is_empty t ≡ true → t ≡ []
is_empty-eq [] h = refl
is_empty-eq (c ∷ cs) h = absurd (cc)

module _ (settings : Values)
    (absent : all (λ key. is_empty (value_of key settings)) pool_keys ≡ true) where
  left_out :
      (key default : Text)
      → contains key pool_keys ≡ true
      → setting_or settings key default ≡ default
  left_out key default h = setting_or-default settings key default (
      is_empty-eq (value_of key settings)
        (all-contains (λ k. is_empty (value_of k settings)) key pool_keys absent h))

  pool_of-derived :
      (memory process : ℕ) → pool_of settings memory process ≡ derived (fitting memory process)
  unfolding pool_of
  pool_of-derived memory process =
      let n = fitting memory process in
      rw
        (
          left_out (codes "PHP_FPM_MAX_CHILDREN") (digits n) refl,
          is_number-digits n,
          number_of-digits n,
          left_out (codes "PHP_FPM_START_SERVERS") (digits (max 1 (n / 4))) refl,
          left_out (codes "PHP_FPM_MIN_SPARE_SERVERS") (digits (max 1 (n / 4))) refl,
          left_out (codes "PHP_FPM_MAX_SPARE_SERVERS") (digits (max (max 1 (n / 4)) (n / 2))) refl,
          left_out (codes "PHP_FPM_MAX_REQUESTS") (codes "500") refl,
        )
        refl

  -- Where the settings give none of the five pool sizes, the pool that follows from the memory is
  -- accepted by the check, whatever the memory of PHP and of a process; it has 2 children, or so many
  -- that they fit into the memory of PHP with 128 MB to spare.
  pub check_pool-pool_of :
      (memory process : ℕ)
      → (check_pool (pool_of settings memory process) ≡ ok tt)
        × ((number_of 0 (pool_of settings memory process).max_children ≡ 2)
            ⊎ (number_of 0 (pool_of settings memory process).max_children * process + 128 * 1024
                ≤ memory))
  check_pool-pool_of memory process =
      let n = fitting memory process in
      let bounds = fitting_bounds memory process in
      rw (pool_of-derived memory process, number_of-digits n)
        (check_pool-derived n bounds.0 bounds.1, fitting_fits memory process)
