-- ===== src/Agents/HubDispatch/Agrees.antt =====
-- That the decisions on the backend of an agent agree, and that none falls back to the builtin one
-- (internal/agents/hub_dispatch.go and hub_run.go).
use matea.Base.{
  String, str_eq, eq_iff, Option, none, some, Bool, any, ◌≡◌, ◌≢◌, ◌⊎◌, inl, inr, refl, sym, subst,
  ap, ◌∙◌, true, false, Bool-cases, Option-cases,
}
use matea.Base.Maps.{get}
use matea.Agents.HubDispatch.{
  builtin, hub_opencode, hub_hermes, normalize_backend, RunnerFactory, lookup, or_unregistered,
  instance_or, selected, or_builtin, resolve_typed, resolve_name, resolve_hub_backend, execution_of,
  execution_at, resolve_hub_execution, resolve_hub_opencode,
}

not_equal : (x y : String) → str_eq x y ≡ false → x ≢ y
not_equal x y e = λ h. let yes = (eq_iff x y).1 h in absurd (cc (yes, e))

-- the name of today for a name that may be an old one
pub data Names : String → String → Type 0 where
  old_internal : Names "internal" "builtin"
  old_opencode : Names "opencode_http" "hub-opencode"
  current : (name : String) → name ≢ "internal" → name ≢ "opencode_http" → Names name name

normalize-Names : (name : String) → Names name (normalize_backend name)
unfolding normalize_backend
normalize-Names name = elim (Bool-cases (str_eq name "internal")) [
  | inl e ↦ rw e (subst (λ n. Names n "builtin") (sym ((eq_iff name "internal").0 e)) old_internal)
  | inr e ↦ elim (Bool-cases (str_eq name "opencode_http")) [
    | inl o ↦
        rw (e, o)
          (subst (λ n. Names n "hub-opencode") (sym ((eq_iff name "opencode_http").0 o))
            old_opencode)
    | inr o ↦
        rw (e, o) (current name (not_equal name "internal" e) (not_equal name "opencode_http" o))
  ]
]

normalize_none : normalize_backend "" ≡ ""
unfolding normalize_backend
normalize_none = refl

Names-nonempty : (old name : String) → Names old name → old ≢ "" → str_eq name "" ≡ false
Names-nonempty _ _ old_internal ne = refl
Names-nonempty _ _ old_opencode ne = refl
Names-nonempty name _ (current _ i o) ne = elim (Bool-cases (str_eq name "")) [
  | inl e ↦ absurd (ne ((eq_iff name "").0 e))
  | inr e ↦ e
]

module _ (f : RunnerFactory) where
  lookup-name : (name b : String) → lookup f name ≡ some b → b ≡ name
  lookup-name name b h = elim (Bool-cases (any (λ (n : String). str_eq n name) f.registered)) [
    | inl e ↦ let same : some name ≡ some b = rw e at h in cc
    | inr e ↦ let no_path : none ≡ some b = rw e at h in absurd (cc no_path)
  ]

  -- a configured backend of the type builtin
  abbrev pub IsBuiltin : String → Type 0
  IsBuiltin name = (type : String) × (get str_eq name f.backends ≡ some type) × Names type "builtin"

  or_unregistered-name : (name b : String) → or_unregistered f (lookup f name) ≡ inr b → b ≡ name
  or_unregistered-name name b h = elim (Option-cases (lookup f name)) [
    | inl e ↦ absurd (cc (rw e at h))
    | inr (n, e) ↦ lookup-name name b (e ∙ cc (rw e at h))
  ]

  instance_or-name : (name b : String) → instance_or f name (lookup f name) ≡ inr b → b ≡ name
  instance_or-name name b h = elim (Option-cases (lookup f name)) [
    | inl e ↦ absurd (cc (rw e at h))
    | inr (n, e) ↦ lookup-name name b (e ∙ cc (rw e at h))
  ]

  resolve_typed-name :
      (name b : String) (o : Option String)
      → get str_eq name f.backends ≡ o
      → resolve_typed f name o ≡ inr b
      → (b ≡ name) ⊎ ((b ≡ "builtin") × IsBuiltin name)
  resolve_typed-name name b none at h = absurd (cc h)
  resolve_typed-name name b (some type) at h =
      elim (Bool-cases (str_eq (normalize_backend type) builtin)) [
        | inl e ↦ inr (
          or_unregistered-name builtin b (rw e at h),
          (
            type,
            at,
            subst (Names type) ((eq_iff (normalize_backend type) builtin).0 e)
                (normalize-Names type),
          ),
        )
        | inr e ↦ elim (Bool-cases (str_eq (normalize_backend type) hub_opencode)) [
          | inl o ↦ inl (instance_or-name name b (rw (e, o) at h))
          | inr o ↦ elim (Bool-cases (str_eq (normalize_backend type) hub_hermes)) [
            | inl k ↦ inl (instance_or-name name b (rw (e, o, k) at h))
            | inr k ↦ absurd (cc (rw (e, o, k) at h))
          ]
        ]
      ]

  -- which backend an agent asks for: the one that it names, else the default one, else the builtin one
  pub data Asks : String → String → Type 0 where
    by_agent : {backend name : String} → backend ≢ "" → Names backend name → Asks backend name
    by_default : {name : String} → f.default ≢ "" → Names f.default name → Asks "" name
    by_nobody : f.default ≡ "" → Asks "" builtin

  or_builtin-name : (name : String) → str_eq name "" ≡ false → or_builtin f name ≡ name
  or_builtin-name name e = rw e refl

  default-Asks :
      (b : Bool) → str_eq f.default "" ≡ b → Asks "" (or_builtin f (normalize_backend f.default))
  default-Asks true e =
      let unset = (eq_iff f.default "").0 e in
      subst (Asks "") (sym (ap (or_builtin f) (ap normalize_backend unset ∙ normalize_none)))
        (by_nobody unset)
  default-Asks false e =
      let set = not_equal f.default "" e in
      let name = normalize-Names f.default in
      subst (Asks "")
        (sym (
          or_builtin-name (normalize_backend f.default)
            (Names-nonempty f.default (normalize_backend f.default) name set)))
        (by_default set name)

  named-Asks : (backend : String) → backend ≢ "" → Asks backend (or_builtin f (selected f backend))
  named-Asks backend set =
      let name = normalize-Names backend in
      let full = Names-nonempty backend (normalize_backend backend) name set in
      let picked : selected f backend ≡ normalize_backend backend = rw full refl in
      subst (Asks backend)
        (sym (ap (or_builtin f) picked ∙ or_builtin-name (normalize_backend backend) full))
        (by_agent set name)

  selected_none : selected f "" ≡ normalize_backend f.default
  selected_none = rw normalize_none refl

  selected-Asks : (backend : String) → Asks backend (or_builtin f (selected f backend))
  selected-Asks backend = elim (Bool-cases (str_eq backend "")) [
    | inr e ↦ named-Asks backend (not_equal backend "" e)
    | inl e ↦
        subst (λ b. Asks b (or_builtin f (selected f b))) (sym ((eq_iff backend "").0 e))
          (subst (Asks "") (sym (ap (or_builtin f) selected_none))
            (default-Asks (str_eq f.default "") refl))
  ]

  -- An agent that is served is served by the backend that it names, by the default one if it names none, or by the
  -- builtin one if there is no default either, old names read as those of today; only if that is the name of a
  -- configured backend of the type builtin is it served by the builtin one in its place.
  pub resolve_hub_backend-asked :
      (backend b : String)
      → resolve_hub_backend f backend ≡ inr b
      → (name : String) × Asks backend name × ((b ≡ name) ⊎ ((b ≡ "builtin") × IsBuiltin name))
  unfolding resolve_hub_backend
  resolve_hub_backend-asked backend b h =
      let name = or_builtin f (selected f backend) in
      (
        name,
        selected-Asks backend,
        elim (Bool-cases (str_eq name builtin)) [
          | inl e ↦
              inl (or_unregistered-name builtin b (rw e at h) ∙ sym ((eq_iff name builtin).0 e))
          | inr e ↦ resolve_typed-name name b (get str_eq name f.backends) refl (rw e at h)
        ],
      )

  execution_of-resolved :
      (wanted name b : String) (o : Option String)
      → (wanted ≡ hub_opencode) ⊎ (wanted ≡ hub_hermes)
      → execution_of f wanted name o ≡ some b
      → resolve_typed f name o ≡ inr b
  execution_of-resolved wanted name b none kind h = absurd (cc h)
  execution_of-resolved wanted name b (some type) kind h =
      elim (Bool-cases (str_eq (normalize_backend type) wanted)) [
        | inr e ↦ absurd (cc (rw e at h))
        | inl e ↦
            let same = (eq_iff (normalize_backend type) wanted).0 e in
            let found : lookup f name ≡ some b = rw e at h in
            elim kind [ inl k ↦ rw (same ∙ k, found) refl | inr k ↦ rw (same ∙ k, found) refl ]
      ]

  -- a name that goes through a hub is resolved to the same backend
  execution_at-resolved :
      (wanted name b : String)
      → (wanted ≡ hub_opencode) ⊎ (wanted ≡ hub_hermes)
      → execution_at f wanted name ≡ some b
      → resolve_name f (or_builtin f name) ≡ inr b
  execution_at-resolved wanted name b kind h = elim (Bool-cases (str_eq name "")) [
    | inl e ↦ absurd (cc (rw e at h))
    | inr e ↦ elim (Bool-cases (str_eq name builtin)) [
      | inl k ↦ absurd (cc (rw (e, k) at h))
      | inr k ↦
          rw (e, k)
            (execution_of-resolved wanted name b (get str_eq name f.backends) kind (rw (e, k) at h))
    ]
  ]

  -- A task that is run through a hub, of either kind, passes the gate of the dispatch, which resolves its
  -- agent to the same backend.
  pub executions-resolved :
      (backend b : String)
      → (resolve_hub_execution f backend ≡ some b) ⊎ (resolve_hub_opencode f backend ≡ some b)
      → resolve_hub_backend f backend ≡ inr b
  unfolding resolve_hub_backend resolve_hub_execution resolve_hub_opencode
  executions-resolved backend b (inl h) =
      execution_at-resolved hub_hermes (selected f backend) b (inr refl) h
  executions-resolved backend b (inr h) =
      execution_at-resolved hub_opencode (selected f backend) b (inl refl) h
