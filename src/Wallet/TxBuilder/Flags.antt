-- ===== src/Wallet/TxBuilder/Flags.antt =====
-- Command lines as lists of flags and values.
use cardano_infrastructure.Base.{
  ◌≡◌, refl, sym, ◌∙◌, ap, subst, inl, inr, false, Bool-cases, List, [], ◌∷◌, ◌++◌, append_assoc,
  append-nil, Bytes, bytes_eq, if◌then◌else◌,
}

-- The values behind a flag in a list of flags and values.
unfoldable pub values_of : Bytes → List Bytes → List Bytes
values_of key [] = []
values_of key (flag ∷ []) = []
values_of key (flag ∷ value ∷ args) =
    let rest = values_of key args in if bytes_eq flag key then value ∷ rest else rest

-- The values given with a flag, as far as the key is that flag.
abbrev pub tagged : Bytes → Bytes → List Bytes → List Bytes
tagged flag key values = if bytes_eq flag key then values else []

-- `args'` continues `args` with flags and values, of which `values` stand behind the key.
pub record Adds (key : Bytes) (values args args' : List Bytes) : Type 0 where
  pub more : List Bytes
  pub continues : args' ≡ args ++ more
  pub values_are :
      (args'' : List Bytes) → values_of key (more ++ args'') ≡ values ++ values_of key args''

pub Adds-nothing : (key : Bytes) (args : List Bytes) → Adds key [] args args
Adds-nothing key args = record {
  more = [];
  continues = sym (append-nil args);
  values_are = λ args''. refl;
}

pub Adds-pair :
    (key flag value : Bytes) (args : List Bytes)
    → Adds key (tagged flag key (value ∷ [])) args (args ++ (flag ∷ value ∷ []))
unfolding values_of
Adds-pair key flag value args = record {
  more = flag ∷ value ∷ [];
  continues = refl;
  values_are =
      λ args''. elim (Bool-cases (bytes_eq flag key)) [ inl e ↦ simp e refl | inr e ↦ simp e refl ];
}

pub Adds-trans :
    (key : Bytes) (vs us a b c : List Bytes)
    → Adds key vs a b
    → Adds key us b c
    → Adds key (vs ++ us) a c
Adds-trans key vs us a b c p q = record {
  more = p.more ++ q.more;
  continues = q.continues ∙ ap (λ x. x ++ q.more) p.continues ∙ append_assoc a p.more q.more;
  values_are = λ args''.
      ap (values_of key) (append_assoc p.more q.more args'')
      ∙ p.values_are (q.more ++ args'')
      ∙ ap (λ x. vs ++ x) (q.values_are args'')
      ∙ sym (append_assoc vs us (values_of key args''));
}

-- A pair whose flag is not the key.
pub Adds-foreign :
    (key flag value : Bytes) (args : List Bytes)
    → bytes_eq flag key ≡ false
    → Adds key [] args (args ++ (flag ∷ value ∷ []))
Adds-foreign key flag value args e =
    subst (λ vs. Adds key vs args (args ++ (flag ∷ value ∷ []))) (simp e refl)
      (Adds-pair key flag value args)

-- A pair whose flag is not the key, before what adds nothing.
pub Adds-after :
    (key flag value : Bytes) (args args' : List Bytes)
    → bytes_eq flag key ≡ false
    → Adds key [] (args ++ (flag ∷ value ∷ [])) args'
    → Adds key [] args args'
Adds-after key flag value args args' e v =
    Adds-trans key [] [] args (args ++ (flag ∷ value ∷ [])) args'
      (Adds-foreign key flag value args e) v

pub tagged-nil : (flag key : Bytes) → [] ≡ tagged flag key []
tagged-nil flag key = elim (Bool-cases (bytes_eq flag key)) [
  | inl e ↦ simp e refl
  | inr e ↦ simp e refl
]

tagged-cons :
    (flag key value : Bytes) (values : List Bytes)
    → tagged flag key (value ∷ []) ++ tagged flag key values ≡ tagged flag key (value ∷ values)
tagged-cons flag key value values = elim (Bool-cases (bytes_eq flag key)) [
  | inl e ↦ simp e refl
  | inr e ↦ simp e refl
]

-- A flag with a value, before more of them.
pub Adds-cons :
    (key flag value : Bytes) (values args args' : List Bytes)
    → Adds key (tagged flag key values) (args ++ (flag ∷ value ∷ [])) args'
    → Adds key (tagged flag key (value ∷ values)) args args'
Adds-cons key flag value values args args' v =
    subst (λ vs. Adds key vs args args') (tagged-cons flag key value values)
      (Adds-trans key (tagged flag key (value ∷ [])) (tagged flag key values) args
        (args ++ (flag ∷ value ∷ [])) args' (Adds-pair key flag value args) v)
