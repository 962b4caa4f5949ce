-- ===== src/Credibility/EdgeId/RoundTrip.antt =====
-- An id that the prediction service writes is read back by the credibility service.
use Prim.Native.Char.{code}
use Prim.Native.String.{String}
use mathlib.Core.Path.{subst}
use text.Mathlib.Text.{◌==◌ as str_eq}
use text.Mathlib.TextEquality.{eq_iff}
use stock_prediction.Base.{
  ℕ, Bool, true, false, not, ◌&&◌, ◌≡◌, refl, sym, ap, ◌∙◌, Option, none, some, List, [], ◌∷◌,
  arith, ◌==◌, Bool-cases, inl, inr, ◌<>◌, <>_assoc, is_empty,
}
use stock_prediction.Prediction.Edge.{FiringEdge, CorrelationEdge, edge_id, correlation_edge_id}
use stock_prediction.Credibility.EdgeId.{
  partition_arrow, partition_bar, is_member, event_types, condition_codes, upstream_codes, Registry,
  parsed, Target, asset, group, edge_left, with_target, parse_edge_id, parse_correlation_edge_id,
  target_of,
}

-- The character does not occur in the text.
abbrev pub is_free : ℕ → String → Bool
is_free k String.[] = true
is_free k (String.◌∷◌ c rest) = not (code c == k) && is_free k rest

partition_arrow-append :
    (left right : String)
    → is_free b'-' left ≡ true
    → partition_arrow (left <> ("->" <> right)) ≡ some (left, right)
unfolding partition_arrow
partition_arrow-append String.[] right h = refl
partition_arrow-append (String.◌∷◌ c rest) right h =
    ground (arith, partition_arrow-append rest right)

partition_bar-append :
    (left right : String)
    → is_free b'|' left ≡ true
    → partition_bar (left <> ("|" <> right)) ≡ some (left, right)
unfolding partition_bar
partition_bar-append String.[] right h = refl
partition_bar-append (String.◌∷◌ c rest) right h = ground (arith, partition_bar-append rest right)

partition_bar-free : (s : String) → is_free b'|' s ≡ true → partition_bar s ≡ none
unfolding partition_bar
partition_bar-free String.[] h = refl
partition_bar-free (String.◌∷◌ c rest) h = ground (arith, partition_bar-free rest)

is_free-append :
    (k : ℕ) (s t : String) → is_free k s ≡ true → is_free k t ≡ true → is_free k (s <> t) ≡ true
is_free-append k String.[] t h g = g
is_free-append k (String.◌∷◌ c rest) t h g = ground (arith, is_free-append k rest t)

abbrev all : (String → Bool) → List String → Bool
all p [] = true
all p (x ∷ xs) = p x && all p xs

is_member_sound :
    (p : String → Bool) (members : List String) (s : String)
    → all p members ≡ true
    → is_member members s ≡ true
    → p s ≡ true
is_member_sound p [] s h m = cc
is_member_sound p (x ∷ xs) s h m = elim (Bool-cases (str_eq x s)) [
  | inl e ↦ subst (λ y. p y ≡ true) ((eq_iff x s).0 e) (ground arith)
  | inr e ↦ is_member_sound p xs s (ground arith) (ground arith)
]

-- The separators do not occur in a member of an enumeration, and it is not empty.
abbrev is_plain : String → Bool
is_plain s = is_free b'-' s && is_free b'|' s && not (is_empty s)

event_types-plain : all is_plain event_types ≡ true
event_types-plain = refl

condition_codes-plain : all is_plain condition_codes ≡ true
condition_codes-plain = refl

<>-ne-nil : (s t : String) → is_empty s ≡ false → is_empty (s <> t) ≡ false
<>-ne-nil String.[] t h = cc
<>-ne-nil (String.◌∷◌ c s) t h = refl

-- The target of an edge, as the registry knows it: the asset, or the group of an inherited edge.
abbrev pub Names : {R : Type 0} → Registry → FiringEdge R → Target → Type 0
Names registry e (asset a) =
    (e.inherited_from ≡ none) × (e.asset_id ≡ a) × (registry.is_known_asset a ≡ true)
Names registry e (group g) =
    (e.inherited_from ≡ some g) × (registry.is_known_asset g ≡ false) × (registry.is_group g ≡ true)

abbrev pub text_of : Target → String
text_of (asset a) = a
text_of (group g) = g

module _ (registry : Registry) where
  target_of-known :
      {R : Type 0} (e : FiringEdge R) (t : Target)
      → Names registry e t
      → target_of registry (text_of t) ≡ parsed t
  unfolding target_of
  target_of-known e (asset a) h = ground arith
  target_of-known e (group g) h = ground arith

  parse_steps :
      (id left target : String) (parts : Option (String × String))
      → partition_arrow id ≡ some (left, target)
      → is_empty left ≡ false
      → is_empty target ≡ false
      → partition_bar left ≡ parts
      → parse_edge_id registry id ≡ edge_left registry left target parts
  unfolding parse_edge_id
  parse_steps id left target parts e l t b = ground arith

  edge_left-plain :
      (factor : String) (t : Target)
      → is_member event_types factor ≡ true
      → target_of registry (text_of t) ≡ parsed t
      → edge_left registry factor (text_of t) none
        ≡ parsed (record { factor = factor; condition = none; target = t })
  unfolding edge_left
  edge_left-plain factor t m k = rw m (rw (k, with_target))

  edge_left-conditioned :
      (left factor condition : String) (t : Target)
      → is_member event_types factor ≡ true
      → is_member condition_codes condition ≡ true
      → target_of registry (text_of t) ≡ parsed t
      → edge_left registry left (text_of t) (some (factor, condition))
        ≡ parsed (record { factor = factor; condition = some condition; target = t })
  unfolding edge_left
  edge_left-conditioned left factor condition t m c k = rw m (rw c (rw (k, with_target)))

  read_unconditioned :
      (factor : String) (t : Target)
      → is_member event_types factor ≡ true
      → is_empty (text_of t) ≡ false
      → target_of registry (text_of t) ≡ parsed t
      → parse_edge_id registry (factor <> "->" <> text_of t)
        ≡ parsed (record { factor = factor; condition = none; target = t })
  read_unconditioned factor t member nonempty known =
      let plain = is_member_sound is_plain event_types factor event_types-plain member in
      parse_steps _ factor (text_of t) none
        (partition_arrow-append factor (text_of t) (ground arith)) (ground arith) nonempty
        (partition_bar-free factor (ground arith))
      ∙ edge_left-plain factor t member known

  read_conditioned :
      (factor condition : String) (t : Target)
      → is_member event_types factor ≡ true
      → is_member condition_codes condition ≡ true
      → is_empty (text_of t) ≡ false
      → target_of registry (text_of t) ≡ parsed t
      → parse_edge_id registry (factor <> "|" <> condition <> "->" <> text_of t)
        ≡ parsed (record { factor = factor; condition = some condition; target = t })
  read_conditioned factor condition t member cmember nonempty known =
      let plain = is_member_sound is_plain event_types factor event_types-plain member in
      let cplain =
        is_member_sound is_plain condition_codes condition condition_codes-plain cmember in
      let left = factor <> "|" <> condition in
      let same : factor <> "|" <> condition <> "->" <> text_of t ≡ left <> "->" <> text_of t =
        sym (<>_assoc factor ("|" <> condition) ("->" <> text_of t)) in
      ap (parse_edge_id registry) same
      ∙ parse_steps _ left (text_of t) (some (factor, condition))
          (partition_arrow-append left (text_of t)
            (is_free-append b'-' factor ("|" <> condition) (ground arith) (ground arith)))
          (<>-ne-nil factor ("|" <> condition) (ground arith)) nonempty
          (partition_bar-append factor condition (ground arith))
      ∙ edge_left-conditioned left factor condition t member cmember known

  abbrev IsCondition : Option String → Type 0
  IsCondition none = Unit
  IsCondition (some c) = is_member condition_codes c ≡ true

  abbrev id_text : String → Option String → String → String
  id_text factor none target = factor <> "->" <> target
  id_text factor (some c) target = factor <> "|" <> c <> "->" <> target

  edge_id-id_text :
      {R : Type 0} (e : FiringEdge R) (factor : String) (t : Target)
      → e.factor_id ≡ some factor
      → is_empty (text_of t) ≡ false
      → Names registry e t
      → edge_id e ≡ id_text factor e.condition (text_of t)
  unfolding edge_id
  edge_id-id_text e factor (asset a) f h n = ground arith
  edge_id-id_text e factor (group g) f h n = ground arith

  read_text :
      (factor : String) (condition : Option String) (t : Target)
      → is_member event_types factor ≡ true
      → IsCondition condition
      → is_empty (text_of t) ≡ false
      → target_of registry (text_of t) ≡ parsed t
      → parse_edge_id registry (id_text factor condition (text_of t))
        ≡ parsed (record { factor = factor; condition = condition; target = t })
  read_text factor none t m c h k = read_unconditioned factor t m h k
  read_text factor (some condition) t m c h k = read_conditioned factor condition t m c h k

  -- The id of a firing edge of a known event type, with no condition or a known one, is read back as
  -- its factor, its condition and its target: the asset, or the group that it was inherited from
  -- where the group's name is no asset. Names are not empty.
  pub parse_edge_id-edge_id :
      {R : Type 0} (e : FiringEdge R) (factor : String) (t : Target)
      → e.factor_id ≡ some factor
      → is_member event_types factor ≡ true
      → IsCondition e.condition
      → is_empty (text_of t) ≡ false
      → Names registry e t
      → parse_edge_id registry (edge_id e)
        ≡ parsed (record { factor = factor; condition = e.condition; target = t })
  parse_edge_id-edge_id e factor t f m c h n =
      ap (parse_edge_id registry) (edge_id-id_text e factor t f h n)
      ∙ read_text factor e.condition t m c h (target_of-known e t n)

  correlation_steps :
      (id left source condition target : String)
      → partition_arrow id ≡ some (left, target)
      → partition_bar left ≡ some (source, condition)
      → is_member upstream_codes condition ≡ true
      → registry.is_known_asset source ≡ true
      → registry.is_known_asset target ≡ true
      → parse_correlation_edge_id registry id
        ≡ parsed (some (record { source = source; condition = condition; target = target }))
  unfolding parse_correlation_edge_id
  correlation_steps id left source condition target e b u s t =
      rw (e, parse_correlation_edge_id) (rw b (rw u (rw s (rw t))))

  upstream_codes-plain : all is_plain upstream_codes ≡ true
  upstream_codes-plain = refl

  -- The id of a correlation edge is read back as its source, its condition and its target, if the
  -- condition is an upstream one, both assets are known, and the name of the source has no `-` and
  -- no `|`.
  pub parse_correlation_edge_id_lem :
      {R : Type 0} (e : CorrelationEdge R)
      → is_free b'-' e.source_asset_id ≡ true
      → is_free b'|' e.source_asset_id ≡ true
      → is_member upstream_codes e.condition ≡ true
      → registry.is_known_asset e.source_asset_id ≡ true
      → registry.is_known_asset e.target_asset_id ≡ true
      → parse_correlation_edge_id registry (correlation_edge_id e)
        ≡ parsed (
            some (record {
              source = e.source_asset_id;
              condition = e.condition;
              target = e.target_asset_id;
            }))
  unfolding correlation_edge_id
  parse_correlation_edge_id_lem e dash bar u s t =
      let source = e.source_asset_id in
      let target = e.target_asset_id in
      let plain = is_member_sound is_plain upstream_codes e.condition upstream_codes-plain u in
      let left = source <> "|" <> e.condition in
      ap (parse_correlation_edge_id registry)
        (sym (<>_assoc source ("|" <> e.condition) ("->" <> target)))
      ∙ correlation_steps _ left source e.condition target
          (partition_arrow-append left target
            (is_free-append b'-' source ("|" <> e.condition) dash (ground arith)))
          (partition_bar-append source e.condition bar) u s t
