-- ===== src/Policy/Switches/Laws.antt =====
-- No switch of an accepted policy is left open, and what it takes for mail to go out.
use docker_development_envir.Common.{
  Bool, true, false, not, ◌||◌, ◌==◌, nat_eq, list_eq, List, [], ◌∷◌, Text, ◌≡◌, refl, sym, ◌∙◌, ap,
  ok, err, codes, contains, is_empty, if◌then◌else◌, Bool-cases, inl, inr, ◌⊎◌, arith,
}
use docker_development_envir.Common.Results.{ensure, >>=-ok, ok-injective}
use docker_development_envir.Settings.{Values, value_of}
use docker_development_envir.Policy.{
  PolicyError, no_mailpit, not_allowed, setting_or, is_development, choice,
}
use docker_development_envir.Policy.Switches.{
  Modes, off_on, auto_choice, has_mailpit, mail_modes, compile_modes, object_modes, mail_mode,
  default_mail_mode, resolve_switches,
}

choice-ok :
    (name value : Text) (allowed : List Text) {v : Text}
    → choice name value allowed ≡ ok v
    → (contains value allowed ≡ true) × (v ≡ value)
unfolding choice
choice-ok name value allowed {v} h = elim (Bool-cases (contains value allowed)) [
  | inl k ↦ (k, sym (ok-injective {E = PolicyError} (rw k at h)))
  | inr k ↦ (let no : err (not_allowed name) ≡ ok v = rw k at h in absurd (cc))
]

settled :
    (value given : Text) (fixed : List Text) (resolved : Text) {v : Text}
    → contains value (codes "auto" ∷ fixed) ≡ true
    → given ≡ value
    → (if given == codes "auto" then resolved else given) ≡ v
    → (v ≡ resolved) ⊎ ((contains v fixed ≡ true) × (v ≡ value))
settled value given fixed resolved {v} k same e = elim (Bool-cases (given == codes "auto")) [
  | inl open_left ↦ inl (sym (rw open_left at e))
  | inr written ↦ (elim (Bool-cases (codes "auto" == value)) [
    | inl open_left ↦
        (let auto : codes "auto" ≡ value = (list_eq.beq_iff (codes "auto") value).0 open_left in
          let again = (list_eq.beq_iff given (codes "auto")).1 (same ∙ sym auto) in absurd (cc))
    | inr other ↦
        (let given_is : given ≡ v = rw written at e in
          let v_is : v ≡ value = sym given_is ∙ same in inr (rw v_is (ground arith), v_is))
  ])
]

-- Either the setting_or stands for `resolved`, or it is one of the fixed values and stands for itself.
auto_choice-ok :
    (settings : Values) (name : Text) (fixed : List Text) (resolved : Text) {v : Text}
    → auto_choice settings name fixed resolved ≡ ok v
    → (v ≡ resolved) ⊎ ((contains v fixed ≡ true) × (v ≡ setting_or settings name (codes "auto")))
unfolding auto_choice
auto_choice-ok settings name fixed resolved h =
    let value = setting_or settings name (codes "auto") in
    let a = >>=-ok (choice name value (codes "auto" ∷ fixed)) _ h in
    let known = choice-ok name value (codes "auto" ∷ fixed) a.1 in
    settled value a.0 fixed resolved known.0 known.1 (ok-injective {E = PolicyError} a.2)

auto_choice-fixed :
    (settings : Values) (name : Text) (fixed : List Text) (resolved : Text) {v : Text}
    → contains resolved fixed ≡ true
    → auto_choice settings name fixed resolved ≡ ok v
    → contains v fixed ≡ true
auto_choice-fixed settings name fixed resolved k h =
    elim (auto_choice-ok settings name fixed resolved h) [
      | inl same ↦ rw same k
      | inr (known, same) ↦ known
    ]

contains-if :
    (b : Bool) (x y : Text) (xs : List Text)
    → contains x xs ≡ true
    → contains y xs ≡ true
    → contains (if b then x else y) xs ≡ true
contains-if true x y xs h k = h
contains-if false x y xs h k = k

mail_mode-ok :
    (settings : Values) (environment : Text) {v : Text}
    → mail_mode settings environment ≡ ok v
    → auto_choice settings (codes "MAIL_MODE") mail_modes (default_mail_mode settings environment)
      ≡ ok v
unfolding mail_mode
mail_mode-ok settings environment h =
    let a =
      >>=-ok
        (auto_choice settings (codes "MAIL_MODE") mail_modes
          (default_mail_mode settings environment))
        _ h in
    let b =
      >>=-ok
        (ensure
          (not (value_of (codes "MAIL_MODE") settings == codes "mailpit") || has_mailpit settings)
          no_mailpit)
        _ a.2 in
    a.1 ∙ ap (λ (t : Text). ok t) (ok-injective {E = PolicyError} b.2)

default_mail_mode-known :
    (settings : Values) (environment : Text)
    → contains (default_mail_mode settings environment) mail_modes ≡ true
unfolding default_mail_mode
default_mail_mode-known settings environment =
    contains-if (environment == codes "prod") (codes "preserve") _ mail_modes refl
      (contains-if (has_mailpit settings) (codes "mailpit") (codes "off") mail_modes refl refl)

-- Whatever the settings leave out or leave to `auto`, a resolved switch has one of its fixed values.
pub Settled-resolve_switches :
    (settings : Values) (environment : Text) {s : Modes}
    → resolve_switches settings environment ≡ ok s
    → (contains s.cache_mode off_on ≡ true)
      × (contains s.php_opcache off_on ≡ true)
      × (contains s.php_apcu off_on ≡ true)
      × (contains s.smarty_cache off_on ≡ true)
      × (contains s.asset_cache off_on ≡ true)
      × (contains s.validate_timestamps off_on ≡ true)
      × (contains s.smarty_compile compile_modes ≡ true)
      × (contains s.object_cache object_modes ≡ true)
      × (contains s.mail_mode mail_modes ≡ true)
unfolding resolve_switches
Settled-resolve_switches settings environment {s} h =
    let development = is_development environment in
    let a =
      >>=-ok
        (auto_choice settings (codes "CACHE_MODE") off_on
          (if development then codes "off" else codes "on"))
        _ h in
    let b = >>=-ok (auto_choice settings (codes "PHP_OPCACHE") off_on a.0) _ a.2 in
    let c = >>=-ok (auto_choice settings (codes "PHP_APCU") off_on a.0) _ b.2 in
    let d = >>=-ok (auto_choice settings (codes "PS_SMARTY_CACHE") off_on a.0) _ c.2 in
    let e = >>=-ok (auto_choice settings (codes "PS_ASSET_CACHE") off_on a.0) _ d.2 in
    let f =
      >>=-ok
        (auto_choice settings (codes "PHP_OPCACHE_VALIDATE_TIMESTAMPS") off_on
          (if development then codes "on" else codes "off"))
        _ e.2 in
    let g =
      >>=-ok
        (auto_choice settings (codes "PS_SMARTY_COMPILE") compile_modes
          (if a.0 == codes "off" then codes "check" else codes "never"))
        _ f.2 in
    let i =
      >>=-ok
        (auto_choice settings (codes "PS_OBJECT_CACHE") object_modes
          (if a.0 == codes "off" then codes "off" else codes "preserve"))
        _ g.2 in
    let j = >>=-ok (mail_mode settings environment) _ i.2 in
    let same = ok-injective {E = PolicyError} j.2 in
    let cache =
      auto_choice-fixed settings _ off_on _
        (contains-if development (codes "off") (codes "on") off_on refl refl) a.1 in
    rw (← same) (
      cache,
      auto_choice-fixed settings _ off_on a.0 cache b.1,
      auto_choice-fixed settings _ off_on a.0 cache c.1,
      auto_choice-fixed settings _ off_on a.0 cache d.1,
      auto_choice-fixed settings _ off_on a.0 cache e.1,
      auto_choice-fixed settings _ off_on _
          (contains-if development (codes "on") (codes "off") off_on refl refl) f.1,
      auto_choice-fixed settings _ compile_modes _
          (contains-if (a.0 == codes "off") (codes "check") (codes "never") compile_modes refl refl)
          g.1,
      auto_choice-fixed settings _ object_modes _
          (contains-if (a.0 == codes "off") (codes "off") (codes "preserve") object_modes refl refl)
          i.1,
      auto_choice-fixed settings _ mail_modes _ (default_mail_mode-known settings environment)
          (mail_mode-ok settings environment j.1),
    )

unsent :
    (prod mailpit : Bool)
    → codes "preserve"
      ≡ (if prod then codes "preserve" else if mailpit then codes "mailpit" else codes "off")
    → prod ≡ true
unsent true mailpit h = refl
unsent false true h = absurd (cc)
unsent false false h = absurd (cc)

written_out :
    (value : Text)
    → codes "preserve" ≡ (if is_empty value then codes "auto" else value)
    → value ≡ codes "preserve"
written_out [] h = absurd (cc)
written_out (c ∷ cs) h = sym h

-- Mail goes out as it is only in prod, or where the settings say MAIL_MODE=preserve.
pub mail_mode-preserve :
    (settings : Values) (environment : Text)
    → mail_mode settings environment ≡ ok (codes "preserve")
    → (environment ≡ codes "prod") ⊎ (value_of (codes "MAIL_MODE") settings ≡ codes "preserve")
unfolding default_mail_mode
mail_mode-preserve settings environment h =
    elim (auto_choice-ok settings (codes "MAIL_MODE") mail_modes _
      (mail_mode-ok settings environment h)) [
        | inl same ↦ inl (
            (list_eq.beq_iff environment (codes "prod")).0
              (unsent (environment == codes "prod") (has_mailpit settings) same))
        | inr (known, same) ↦ inr (written_out (value_of (codes "MAIL_MODE") settings) same)
      ]
