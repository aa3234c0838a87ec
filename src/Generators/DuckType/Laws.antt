-- ===== src/Generators/DuckType/Laws.antt =====
-- The sets of pkg/generators/duck_type.go: which decisions get one, and what it says.
use applicationset.Prelude.{
  Option, not, ◌&&◌, any, lookup, String, Bool, false, List, [], ◌∷◌, ◌++◌, none, some, Map, insert,
  insert_all, keep_if, All2, str_eq, ◌≡◌, refl, sym, ◌∙◌, ap, Option-cases, Bool-cases, inl, inr,
}
use mathlib.Core.List.{append-nil, append_assoc}
use applicationset.Errors.{ok}
use applicationset.Errors.Laws.{ok-injective, bind-ok}
use applicationset.Api.Generator.{DuckTypeGenerator}
use applicationset.Utils.Combine.{Params}
use applicationset.Utils.Clusters.{Cluster}
use applicationset.Utils.Json.{
  Value, null, text, object, array, number, boolean, as_text, as_object,
}
use applicationset.Utils.Text.{is_empty}
use applicationset.Generators.Prefixed.{add_prefixed}
use applicationset.Generators.DuckType.Decisions.{
  text_or_nil, match_value, add_fields, matched_cluster, decided_params, decision_params,
}
use applicationset.Generators.DuckType.Found.{
  IsFirstNamed, find_cluster-IsFirstNamed, found_one, find_cluster-any,
}

module _ (duck : DuckTypeGenerator) (match_key : String) (clusters : List Cluster) where
  -- The value is a text that is the name of a cluster of Argo CD, and not empty.
  abbrev pub names_cluster : Value → Bool
  names_cluster (text name) = not (is_empty name) && any (λ c. str_eq c.name name) clusters
  names_cluster _ = false

  -- The decision is an object with the name of a cluster of Argo CD under the match key.
  abbrev pub is_decided : Value → Bool
  is_decided v = elim (as_object v) [
    | none ↦ false
    | some d ↦ elim (lookup match_key d) [ none ↦ false | some value ↦ names_cluster value ]
  ]

  -- The pairs are the fields of the decision, whose values are all texts.
  abbrev pub TextsOf : Map Value → Params → Type 0
  TextsOf = All2 (λ (key, value) (k, s). (key ≡ k) × (as_text value ≡ some s))

  -- The set of a decision: the decision names a cluster of Argo CD, and the set is its name and
  -- server, then the fields of the decision stored over them, and the values of the spec behind
  -- their prefix.
  abbrev pub IsDecisionSet : Value → Params → Type 0
  IsDecisionSet v params =
      (d : Map Value) × (c : Cluster) × (pairs : Params) × (as_object v ≡ some d)
      × (lookup match_key d ≡ some (text c.name))
      × IsFirstNamed c clusters
      × TextsOf d pairs
      × (params
          ≡ add_prefixed "values." duck.values
              (insert_all pairs (insert "server" c.server (insert "name" c.name []))))

  add_fields-TextsOf :
      (d : Map Value) (base params : Params)
      → add_fields d base ≡ ok params
      → (pairs : Params) × TextsOf d pairs × (params ≡ insert_all pairs base)
  unfolding add_fields insert_all
  add_fields-TextsOf [] base params h = ([], tt, sym (ok-injective h))
  add_fields-TextsOf ((key, value) ∷ d) base params h = elim (Option-cases (as_text value)) [
    | inl e ↦ cc (rw (add_fields, e) at h)
    | inr (s, e) ↦
        let (pairs, texts, stored) =
          add_fields-TextsOf d (insert key s base) params (rw (add_fields, e) at h) in
        ((key, s) ∷ pairs, ((refl, e), texts), stored)
  ]

  text_or_nil-text :
      (v : Value) (name : String) → text_or_nil v ≡ ok name → is_empty name ≡ false → v ≡ text name
  text_or_nil-text null name h filled = cc (ap is_empty (ok-injective h))
  text_or_nil-text (text s) name h filled = ap text (ok-injective h)
  text_or_nil-text (number s) name h filled = cc
  text_or_nil-text (boolean b) name h filled = cc
  text_or_nil-text (array vs) name h filled = cc
  text_or_nil-text (object fs) name h filled = cc

  text_or_nil-names :
      (v : Value) (name : String)
      → text_or_nil v ≡ ok name
      → names_cluster v ≡ (not (is_empty name) && any (λ c. str_eq c.name name) clusters)
  text_or_nil-names null name h = rw (sym (ok-injective h)) refl
  text_or_nil-names (text s) name h = rw (ok-injective h) refl
  text_or_nil-names (number s) name h = cc
  text_or_nil-names (boolean b) name h = cc
  text_or_nil-names (array vs) name h = cc
  text_or_nil-names (object fs) name h = cc

  -- What the value under the match key says, if it is a text or nil.
  match_value-text :
      (d : Map Value) (name : String)
      → match_value match_key d ≡ ok name
      → is_empty name ≡ false
      → lookup match_key d ≡ some (text name)
  unfolding match_value
  match_value-text d name h filled = elim (Option-cases (lookup match_key d)) [
    | inl e ↦ cc (ap is_empty (ok-injective (rw (match_value, e) at h)))
    | inr (v, e) ↦ e ∙ ap some (text_or_nil-text v name (rw (match_value, e) at h) filled)
  ]

  match_value-empty :
      (d : Map Value) (name : String)
      → match_value match_key d ≡ ok name
      → elim (lookup match_key d) [ none ↦ false | some value ↦ names_cluster value ]
        ≡ (not (is_empty name) && any (λ c. str_eq c.name name) clusters)
  unfolding match_value
  match_value-empty d name h = elim (Option-cases (lookup match_key d)) [
    | inl e ↦ rw (e, sym (ok-injective (rw (match_value, e) at h))) refl
    | inr (v, e) ↦ rw e (text_or_nil-names v name (rw (match_value, e) at h))
  ]

  matched-is_decided :
      (v : Value) (d : Map Value) (o : Option Cluster)
      → as_object v ≡ some d
      → matched_cluster duck match_key clusters d ≡ ok o
      → is_decided v ≡ found_one o
  unfolding matched_cluster
  matched-is_decided v d o e h =
      let (name, found, h') = bind-ok (match_value match_key d) h in
      rw (is_decided, e)
        (match_value-empty d name found ∙ elim (Bool-cases (is_empty name)) [
          | inl empty ↦ rw (empty, sym (ok-injective (rw empty at h'))) refl
          | inr filled ↦
              rw filled (find_cluster-any name clusters o (ok-injective (rw filled at h')))
        ])

  matched_cluster-named :
      (d : Map Value) (c : Cluster)
      → matched_cluster duck match_key clusters d ≡ ok (some c)
      → (lookup match_key d ≡ some (text c.name)) × IsFirstNamed c clusters
  unfolding matched_cluster
  matched_cluster-named d c h =
      let (name, found, h') = bind-ok (match_value match_key d) h in
      elim (Bool-cases (is_empty name)) [
        | inl e ↦ cc (rw e at h')
        | inr e ↦
            let (first, named) =
              find_cluster-IsFirstNamed name clusters c (ok-injective (rw e at h')) in
            (match_value-text d name found e ∙ ap (λ s. some (text s)) (sym named), first)
      ]

  taken :
      (v : Value) (d : Map Value) (c : Cluster) (params : Params)
      → as_object v ≡ some d
      → matched_cluster duck match_key clusters d ≡ ok (some c)
      → decided_params duck match_key clusters d c ≡ ok params
      → IsDecisionSet v params
  unfolding decided_params
  taken v d c params is_d matched h =
      let (inner, added, h') = bind-ok (add_fields d _) h in
      let (pairs, texts, stored) = add_fields-TextsOf d _ inner added in
      let (named, m) = matched_cluster-named d c matched in
      (
        d,
        c,
        pairs,
        is_d,
        named,
        m,
        texts,
        sym (ok-injective h') ∙ ap (add_prefixed "values." duck.values) stored,
      )

  -- If the loop over the decisions succeeds, it adds one set for each decision whose text under the
  -- match key is the name of a cluster of Argo CD, in their order: the name and the server of the
  -- first cluster of that name, then the texts of the decision stored over them, and the values of
  -- the spec behind their prefix.
  pub decision_params-IsDecisionSet :
      (decisions : List Value) (res sets : List Params)
      → decision_params duck match_key clusters decisions res ≡ ok sets
      → (new : List Params) × (sets ≡ res ++ new)
        × All2 IsDecisionSet (keep_if is_decided decisions) new
  unfolding decision_params
  decision_params-IsDecisionSet [] res sets h =
      ([], sym (ok-injective h) ∙ sym (append-nil res), tt)
  decision_params-IsDecisionSet (v ∷ decisions) res sets h = elim (Option-cases (as_object v)) [
    | inl e ↦ cc (rw (decision_params, e) at h)
    | inr (d, e) ↦
        let (matched, found, h') =
          bind-ok (matched_cluster duck match_key clusters d) (rw (decision_params, e) at h) in
        elim (Option-cases matched) [
          | inl none_found ↦
              let (new, same, each) =
                decision_params-IsDecisionSet decisions res sets (rw none_found at h') in
              (new, same, rw (matched-is_decided v d none e (found ∙ ap ok none_found)) each)
          | inr (c, some_found) ↦
              let (params, made, h'') =
                bind-ok (decided_params duck match_key clusters d c) (rw some_found at h') in
              let (new, same, each) =
                decision_params-IsDecisionSet decisions (res ++ params ∷ []) sets h'' in
              (
                params ∷ new,
                same ∙ append_assoc res (params ∷ []) new,
                rw (matched-is_decided v d (some c) e (found ∙ ap ok some_found))
                    (taken v d c params e (found ∙ ap ok some_found) made, each),
              )
        ]
  ]
