-- ===== src/Core/Privileges/Reported.antt =====
-- src/core/privileges.ts, rootOnlyParams: a parameter with a rule is reported wherever it stands.
use pve_agent.Base.{
  Text, codes, String, if◌then◌else◌, ◌≡◌, refl, sym, ap, ◌∙◌, subst, true, some, List, [], ◌∷◌,
  ◌++◌,
}
use mathlib.Core.List.{Memᴰ}
use mathlib.Core.List.Memᴰ
use pve_agent.Core.Values.{JsValue}
use pve_agent.Core.Props.Names.{}
use pve_agent.Core.Props.Indexed.{}
use pve_agent.Core.Privileges.{
  RootOnlyParamHit, RootOnlyParamRule, is_set_value, rule_for, hit_of, root_only_params,
}

abbrev pub config_path : Text
config_path = codes "/nodes/{node}/qemu/{vmid}/config"

module _ (print_value : JsValue → Text) (documented : List Text) where
  -- The parameter is among those that force a ticket of root@pam.
  abbrev pub IsReported : Text → List (Text × JsValue) → Type 0
  IsReported param entries =
      (reason : String) × Memᴰ (record { param = param; reason = reason })
        (root_only_params print_value documented config_path entries)

  root_only_params-ruled :
      (entries : List (Text × JsValue)) (name : Text) (value : JsValue) (rule : RootOnlyParamRule)
      → rule_for print_value name config_path ≡ some rule
      → rule.applies value ≡ true
      → is_set_value value ≡ true
      → root_only_params print_value documented config_path ((name, value) ∷ entries)
        ≡ (record { param = name; reason = rule.reason })
          ∷ root_only_params print_value documented config_path entries
  unfolding root_only_params
  root_only_params-ruled entries name value rule found applies set =
      let rest = root_only_params print_value documented config_path entries in
      ap
        (λ b.
          (if b
            then hit_of print_value (rule_for print_value name config_path) documented name value
            else [])
          ++ rest)
        set
      ∙ ap (λ o. hit_of print_value o documented name value ++ rest) found
      ∙ ap (λ b. (if b then (record { param = name; reason = rule.reason }) ∷ [] else []) ++ rest)
          applies

  root_only_params-tail :
      (entries : List (Text × JsValue)) (name : Text) (value : JsValue) (hit : RootOnlyParamHit)
      → Memᴰ hit (root_only_params print_value documented config_path entries)
      → Memᴰ hit (root_only_params print_value documented config_path ((name, value) ∷ entries))
  unfolding root_only_params
  root_only_params-tail entries name value hit later = Memᴰ.append_right _ later

  pub ruled-IsReported :
      (entries : List (Text × JsValue)) (name : Text) (value : JsValue) (rule : RootOnlyParamRule)
      → rule_for print_value name config_path ≡ some rule
      → rule.applies value ≡ true
      → Memᴰ (name, value) entries
      → is_set_value value ≡ true
      → IsReported name entries
  ruled-IsReported [] name value rule found applies member set = elim member [ ]
  ruled-IsReported ((other, v) ∷ entries) name value rule found applies (Memᴰ.tail t) set =
      let (reason, later) = ruled-IsReported entries name value rule found applies t set in
      (reason, root_only_params-tail entries other v _ later)
  ruled-IsReported ((other, v) ∷ entries) name value rule found applies (Memᴰ.head e) set =
      subst (λ entry. IsReported name (entry ∷ entries)) e
        (
          rule.reason,
          subst (Memᴰ _) (sym (root_only_params-ruled entries name value rule found applies set))
              (Memᴰ.head refl),
        )
