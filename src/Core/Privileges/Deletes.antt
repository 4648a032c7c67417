-- ===== src/Core/Privileges/Deletes.antt =====
-- src/core/privileges.ts: a delete list with an option that only root@pam may touch.
use pve_agent.Base.{
  any, all, join, All, Text, codes, text_eq, is_space, ℕ, ◌==◌, ◌≡◌, refl, sym, ap, ◌∙◌, subst,
  Bool, true, false, not, ◌||◌, some, List, [], ◌∷◌, ◌++◌, append-nil, append_assoc, arith,
}
use mathlib.Core.List.{Memᴰ}
use pve_agent.Core.Values.{JsValue, string}
use pve_agent.Core.Props.Names.{}
use pve_agent.Core.Props.Indexed.{}
use pve_agent.Core.Privileges.{
  RootOnlyParamRule, is_root_only_qemu_option, is_set_value, deletes_root_only, option_names,
  rule_for, text_of,
}
use pve_agent.Core.Privileges.Reported.{config_path, IsReported, ruled-IsReported}

any-Memᴰ :
    {A : Type 0} (p : A → Bool) (x : A) (xs : List A) → Memᴰ x xs → p x ≡ true → any p xs ≡ true
any-Memᴰ p x [] member h = elim member [ ]
any-Memᴰ p x (y ∷ xs) (Memᴰ.head e) h = rw (subst (λ z. p z ≡ true) e h) refl
any-Memᴰ p x (y ∷ xs) (Memᴰ.tail t) h = ground (arith, any-Memᴰ p x xs t h)

-- What stands between the names of a delete list.
abbrev pub separates : ℕ → Bool
separates c = c == b',' || (c == b';' || is_space c)

option_names-plain :
    (v piece : Text)
    → all (λ c. not (separates c)) v ≡ true
    → option_names piece v ≡ (piece ++ v) ∷ []
unfolding option_names
option_names-plain [] piece h = ap (λ t. t ∷ []) (sym (append-nil piece))
option_names-plain (c ∷ v) piece h =
    let inside : separates c ≡ false = ground arith in
    rw (inside, option_names)
      (option_names-plain v (piece ++ c ∷ []) (ground arith)
        ∙ ap (λ t. t ∷ []) (append_assoc piece (c ∷ []) v))

option_names-separated :
    (v piece : Text) (c : ℕ) (rest : Text)
    → all (λ c. not (separates c)) v ≡ true
    → separates c ≡ true
    → option_names piece (v ++ c ∷ rest) ≡ (piece ++ v) ∷ option_names [] rest
unfolding option_names
option_names-separated [] piece c rest h sep =
    rw (sep, option_names) (ap (λ t. t ∷ option_names [] rest) (sym (append-nil piece)))
option_names-separated (d ∷ v) piece c rest h sep =
    let inside : separates d ≡ false = ground arith in
    rw (inside, option_names)
      (option_names-separated v (piece ++ d ∷ []) c rest (ground arith) sep
        ∙ ap (λ t. t ∷ option_names [] rest) (append_assoc piece (d ∷ []) v))

option_names-join :
    (c : ℕ) (name : Text) (names : List Text)
    → separates c ≡ true
    → All (λ v. all (λ c. not (separates c)) v ≡ true) (name ∷ names)
    → option_names [] (join (c ∷ []) (name ∷ names)) ≡ name ∷ names
unfolding join
option_names-join c name [] sep (plain, h) = option_names-plain name [] plain
option_names-join c name (next ∷ names) sep (plain, h) =
    option_names-separated name [] c (join (c ∷ []) (next ∷ names)) plain sep
    ∙ ap (λ l. name ∷ l) (option_names-join c next names sep h)

module _ (print_value : JsValue → Text) (documented : List Text) where
  delete_rule :
      (rule : RootOnlyParamRule) × (rule_for print_value (codes "delete") config_path ≡ some rule)
      × ((value : JsValue) → rule.applies value ≡ deletes_root_only print_value value)
  unfolding rule_for text_eq
  delete_rule = (_, refl, λ value. refl)

  -- Wherever it stands among the parameters of such a call, a delete list that names an option only
  -- root@pam may set is reported. The names are separated by a comma, a semicolon or white space.
  pub root_only_params-delete :
      (entries : List (Text × JsValue)) (c : ℕ) (first : Text) (others : List Text) (name : Text)
      → separates c ≡ true
      → All (λ v. all (λ c. not (separates c)) v ≡ true) (first ∷ others)
      → Memᴰ name (first ∷ others)
      → is_root_only_qemu_option name ≡ true
      → Memᴰ (codes "delete", string (join (c ∷ []) (first ∷ others))) entries
      → is_set_value (string (join (c ∷ []) (first ∷ others))) ≡ true
      → IsReported print_value documented (codes "delete") entries
  unfolding deletes_root_only text_of
  root_only_params-delete entries c first others name sep plain named h member set =
      let (rule, found, applies) = delete_rule in
      let list = string (join (c ∷ []) (first ∷ others)) in
      let deletes : deletes_root_only print_value list ≡ true =
        ap (any is_root_only_qemu_option) (option_names-join c first others sep plain)
        ∙ any-Memᴰ is_root_only_qemu_option name (first ∷ others) named h in
      ruled-IsReported print_value documented entries (codes "delete") list rule found
        (applies list ∙ deletes) member set
