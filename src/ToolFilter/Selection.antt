-- ===== src/ToolFilter/Selection.antt =====
-- Theorems on filterTools of cmd/particle/serve_mcp_filter.go: which tools pass.
use particles.Base.{
  String, ◌≡◌, ◌↔◌, ◌⊎◌, inl, inr, refl, sym, ap, subst, ◌∙◌, Bool, true, false, Option, none, some,
  List, [], ◌∷◌, ◌++◌, Any, eq_iff, arith, if◌then◌else◌,
}
use particles.ToolFilter.{
  ToolDef, Filtered, ok, err, is_empty, is_in, first_unknown, is_kept, kept, selected, filter_tools,
}

abbrev pub IsMember : String → List String → Type 0
IsMember name names = Any (λ (n : String). n ≡ name) names

abbrev pub IsTool : ToolDef → List ToolDef → Type 0
IsTool t tools = Any (λ (u : ToolDef). u ≡ t) tools

-- On the allow-list if there is one, and not on the deny-list.
abbrev pub IsWanted : List String → List String → ToolDef → Type 0
IsWanted include exclude t =
    ((include ≡ []) ⊎ IsMember t.name include) × (IsMember t.name exclude → ⊥)

is_in_iff : (names : List String) (name : String) → (is_in names name ≡ true) ↔ IsMember name names
unfolding is_in
is_in_iff [] name = (λ h. cc, λ h. elim h [ ])
is_in_iff (n ∷ names) name = (
  λ h. ground (arith, eq_iff n name, is_in_iff names name),
  λ h. ground (arith, eq_iff n name, is_in_iff names name),
)

is_empty_iff : (names : List String) → (is_empty names ≡ true) ↔ (names ≡ [])
is_empty_iff [] = (λ h. refl, λ h. refl)
is_empty_iff (n ∷ names) = (λ h. cc, λ h. cc)

none_is_in :
    (names : List String) (name : String) → is_empty names ≡ true → is_in names name ≡ false
unfolding is_in
none_is_in [] name h = refl
none_is_in (n ∷ names) name h = cc

is_kept_iff :
    (include exclude : List String) (t : ToolDef)
    → (is_kept include exclude t ≡ true) ↔ IsWanted include exclude t
unfolding is_kept
is_kept_iff include exclude t = (
  λ h. ground (
    arith,
    is_empty_iff include,
    is_in_iff include t.name,
    is_in_iff exclude t.name,
    none_is_in exclude t.name,
  ),
  λ h. ground (
    arith,
    is_empty_iff include,
    is_in_iff include t.name,
    is_in_iff exclude t.name,
    none_is_in exclude t.name,
  ),
)

kept_step :
    (include exclude : List String) (u t : ToolDef) (tools rest : List ToolDef) (c : Bool)
    → is_kept include exclude u ≡ c
    → IsTool t rest ↔ (IsTool t tools × (is_kept include exclude t ≡ true))
    → IsTool t (if c then u ∷ rest else rest)
      ↔ (((u ≡ t) ⊎ IsTool t tools) × (is_kept include exclude t ≡ true))
kept_step include exclude u t tools rest true e k = (
  λ h. elim h [
    | inl same ↦ (inl same, sym (ap (is_kept include exclude) same) ∙ e)
    | inr later ↦ let (found, wanted) = k.0 later in (inr found, wanted)
  ],
  λ (h, w). elim h [ inl same ↦ inl same | inr later ↦ inr (k.1 (later, w)) ],
)
kept_step include exclude u t tools rest false e k = (
  λ h. let (found, wanted) = k.0 h in (inr found, wanted),
  λ (h, w). elim h [
    | inl same ↦ ground (arith, sym (ap (is_kept include exclude) same) ∙ e, w)
    | inr later ↦ k.1 (later, w)
  ],
)

kept_iff :
    (include exclude : List String) (tools : List ToolDef) (t : ToolDef)
    → IsTool t (kept include exclude tools) ↔ (IsTool t tools × (is_kept include exclude t ≡ true))
unfolding kept
kept_iff include exclude [] t = (λ h. elim h [ ], λ (h, k). elim h [ ])
kept_iff include exclude (u ∷ tools) t =
    kept_step include exclude u t tools (kept include exclude tools) (is_kept include exclude u)
      refl (kept_iff include exclude tools t)

abbrev tools_of : Filtered → List ToolDef
tools_of (ok tools) = tools
tools_of (err e) = []

all_kept :
    (include exclude : List String) (tools : List ToolDef)
    → (include ≡ []) × (exclude ≡ [])
    → kept include exclude tools ≡ tools
unfolding kept
all_kept include exclude [] h = refl
all_kept include exclude (u ∷ tools) (h, k) = ground (
  arith,
  h,
  k,
  is_kept_iff include exclude u,
  all_kept include exclude tools (h, k),
  is_empty_iff exclude,
  is_in_iff exclude u.name,
  none_is_in exclude u.name,
)

selected_kept :
    (tools : List ToolDef) (include exclude : List String) (o : Option String) (out : List ToolDef)
    → selected tools include exclude o ≡ ok out
    → kept include exclude tools ≡ out
unfolding selected
selected_kept tools include exclude none out h = ap tools_of h
selected_kept tools include exclude (some n) out h = cc

filter_tools_kept :
    (tools : List ToolDef) (include exclude : List String) (out : List ToolDef)
    → filter_tools tools include exclude ≡ ok out
    → kept include exclude tools ≡ out
unfolding filter_tools
filter_tools_kept tools include exclude out h = ground (
  arith,
  h,
  is_empty_iff include,
  is_empty_iff exclude,
  all_kept include exclude tools,
  selected_kept tools include exclude (first_unknown tools (include ++ exclude)) out,
)

-- Where the filter answers tools, they are exactly those of the particle's that are on the
-- allow-list, if there is one, and not on the deny-list.
pub filter_tools_iff :
    (tools : List ToolDef) (include exclude : List String) (out : List ToolDef) (t : ToolDef)
    → filter_tools tools include exclude ≡ ok out
    → IsTool t out ↔ (IsTool t tools × IsWanted include exclude t)
filter_tools_iff tools include exclude out t h =
    let same = filter_tools_kept tools include exclude out h in
    let (forth, back) = kept_iff include exclude tools t in
    (
      λ m.
          let (found, wanted) = forth (subst (IsTool t) (sym same) m) in
          (found, (is_kept_iff include exclude t).0 wanted),
      λ (found, wanted).
          subst (IsTool t) same (back (found, (is_kept_iff include exclude t).1 wanted)),
    )
