-- ===== src/Core/Privileges/Options.antt =====
-- src/core/privileges.ts: the options of a virtual machine that only root@pam may touch.
use pve_agent.Base.{
  length, ==_iff, find, is_digit, digits_value, ◌&&◌, Option, starts_with, drop, Bool-cases, any,
  All, Text, codes, text_eq, text_eq_iff, String, ℕ, ◌≡◌, refl, sym, ap, ◌∙◌, subst, inl, inr, true,
  ◌||◌, some, List, [], ◌∷◌, ◌++◌, arith,
}
use mathlib.Core.List.{Memᴰ}
use pve_agent.Core.Values.{JsValue}
use pve_agent.Core.Props.Names.{split_indexed_key, is_key_name}
use pve_agent.Core.Props.Indexed.{split_at-base, split_at-digits}
use pve_agent.Core.Privileges.{
  qemu_create_or_config, unclassed_reason, parallel_digits, is_one_of, is_under,
  root_only_param_rules, is_name, family_name, RootOnlyParamRule, unclassed_qemu_options,
  is_root_only_qemu_option, is_parallel, is_set_value, rule_for,
}
use pve_agent.Core.Privileges.Reported.{config_path, IsReported, ruled-IsReported}

starts_with-parts : (s p : Text) → starts_with s p ≡ true → s ≡ p ++ drop (length p) s
unfolding starts_with
starts_with-parts s [] h = refl
starts_with-parts [] (b ∷ p) h = absurd (ground (arith, h))
starts_with-parts (a ∷ s) (b ∷ p) h =
    let same : a ≡ b = (==_iff a b).0 (ground arith) in
    let rest = starts_with-parts s p (ground arith) in ap (λ c. c ∷ s) same ∙ ap (λ t. b ∷ t) rest

module _ (print_value : JsValue → Text) (documented : List Text) where
  -- The rule that speaks of an option of a virtual machine applies to every value.
  IsRuled : Text → Type 0
  IsRuled name =
      (rule : RootOnlyParamRule) × (rule_for print_value name config_path ≡ some rule)
      × ((value : JsValue) → rule.applies value ≡ true)

  args-IsRuled : IsRuled (codes "args")
  unfolding IsRuled rule_for text_eq
  args-IsRuled = (_, refl, λ value. refl)

  lock-IsRuled : IsRuled (codes "lock")
  unfolding IsRuled rule_for text_eq
  lock-IsRuled = (_, refl, λ value. refl)

  hookscript-IsRuled : IsRuled (codes "hookscript")
  unfolding IsRuled rule_for text_eq
  hookscript-IsRuled = (_, refl, λ value. refl)

  unclassed-IsRuled : All (λ option. IsRuled (codes option)) unclassed_qemu_options
  unfolding IsRuled rule_for text_eq
  unclassed-IsRuled = (
    (_, refl, λ value. refl),
    (
      (_, refl, λ value. refl),
      (
        (_, refl, λ value. refl),
        (
          (_, refl, λ value. refl),
          (
            (_, refl, λ value. refl),
            (
              (_, refl, λ value. refl),
              (
                (_, refl, λ value. refl),
                ((_, refl, λ value. refl), ((_, refl, λ value. refl), tt)),
              ),
            ),
          ),
        ),
      ),
    ),
  )

  parallel_rule : RootOnlyParamRule
  parallel_rule = record {
    param = codes "parallel[n]";
    path = qemu_create_or_config;
    reason = unclassed_reason;
    applies = λ value. true;
  }

  abbrev parallel_name : Text → Text
  parallel_name digits = codes "parallel" ++ digits

  split-parallel :
      (digits : Text)
      → parallel_digits digits ≡ true
      → split_indexed_key (parallel_name digits) ≡ some (codes "parallel", digits_value 0 digits)
  unfolding split_indexed_key parallel_digits is_digit is_key_name
  split-parallel [] h = absurd (ground (arith, h))
  split-parallel (d ∷ ds) h =
      split_at-base [] (codes "parallel") (d ∷ ds) refl
      ∙ split_at-digits (codes "parallel") (d ∷ ds) refl h (omega arith)

  -- The search among the rules, from the name's family.
  abbrev rule_among : Option (Text × ℕ) → Text → Option RootOnlyParamRule
  rule_among indexed name =
      find
        (λ rule.
          rule.path config_path
          && (text_eq rule.param name
              || is_name print_value rule.param (family_name print_value indexed)))
        (root_only_param_rules print_value)

  rule_among-parallel :
      (n : ℕ) (digits : Text)
      → rule_among (some (codes "parallel", n)) (parallel_name digits) ≡ some parallel_rule
  unfolding parallel_rule text_eq is_one_of is_under
  rule_among-parallel n digits = elim (Bool-cases (text_eq (codes "[n]") digits)) [
    | inl same ↦ rw (same, text_eq) refl
    | inr other ↦ rw (other, text_eq) refl
  ]

  parallel-IsRuled :
      (digits : Text) → parallel_digits digits ≡ true → IsRuled (parallel_name digits)
  unfolding IsRuled rule_for parallel_rule
  parallel-IsRuled digits h =
      let found : rule_for print_value (parallel_name digits) config_path ≡ some parallel_rule =
        ap (λ o. rule_among o (parallel_name digits)) (split-parallel digits h)
        ∙ rule_among-parallel (digits_value 0 digits) digits in
      (parallel_rule, found, λ value. refl)

  any-All :
      (P : Text → Type 0) (options : List String) (name : Text)
      → any (λ option. text_eq (codes option) name) options ≡ true
      → All (λ option. P (codes option)) options
      → P name
  any-All P [] name h all_hold = absurd (ground (arith, h))
  any-All P (option ∷ options) name h (p, ps) = elim (Bool-cases (text_eq (codes option) name)) [
    | inl same ↦ subst P ((text_eq_iff (codes option) name).0 same) p
    | inr other ↦ any-All P options name (ground (arith, other, h)) ps
  ]

  numbered-IsRuled : (name : Text) → is_parallel name ≡ true → IsRuled name
  unfolding is_parallel
  numbered-IsRuled name h =
      let whole = starts_with-parts name (codes "parallel") (ground (arith, h)) in
      let digits : parallel_digits (drop 8 name) ≡ true = ground (arith, h) in
      subst IsRuled (sym whole) (parallel-IsRuled (drop 8 name) digits)

  option-IsRuled : (name : Text) → is_root_only_qemu_option name ≡ true → IsRuled name
  unfolding is_root_only_qemu_option
  option-IsRuled name h = elim (Bool-cases (text_eq name (codes "args"))) [
    | inl same ↦ subst IsRuled (sym ((text_eq_iff name (codes "args")).0 same)) args-IsRuled
    | inr not_args ↦ elim (Bool-cases (text_eq name (codes "lock"))) [
      | inl same ↦ subst IsRuled (sym ((text_eq_iff name (codes "lock")).0 same)) lock-IsRuled
      | inr not_lock ↦ elim (Bool-cases (text_eq name (codes "hookscript"))) [
        | inl same ↦
            subst IsRuled (sym ((text_eq_iff name (codes "hookscript")).0 same)) hookscript-IsRuled
        | inr not_hook ↦ elim (Bool-cases (is_parallel name)) [
          | inl numbered ↦ numbered-IsRuled name numbered
          | inr other ↦
              let listed : any (λ option. text_eq (codes option) name) unclassed_qemu_options
                  ≡ true =
                rw (not_args, not_lock, not_hook, other, is_root_only_qemu_option) at h in
              any-All IsRuled unclassed_qemu_options name listed unclassed-IsRuled
        ]
      ]
    ]
  ]

  -- Wherever it stands among the parameters of a call on the configuration of a virtual machine, an
  -- option that only root@pam may set, and that is set, is reported, whatever the documented list says.
  pub root_only_params-set :
      (entries : List (Text × JsValue)) (name : Text) (value : JsValue)
      → is_root_only_qemu_option name ≡ true
      → Memᴰ (name, value) entries
      → is_set_value value ≡ true
      → IsReported print_value documented name entries
  unfolding IsRuled
  root_only_params-set entries name value h member set =
      let (rule, found, applies) = option-IsRuled name h in
      ruled-IsReported print_value documented entries name value rule found (applies value) member
        set
