-- ===== src/Dispatch/Matching.antt =====
-- Which records a listener receives, by the filters that it was registered with.
use python_fleet_telemetry.Prelude.{
  ℕ, ◌≡◌, refl, ◌↔◌, true, false, inl, inr, List, [], ◌∷◌, Str, arith, contains, str_eq, Bool-cases,
}
use python_fleet_telemetry.Protobuf.{Protobuf}
use python_fleet_telemetry.Records.{Record, topic_value}
use python_fleet_telemetry.Dispatch.State.{
  Filter, unconstrained, single, among, normalize, isdisjoint, excludes, misses, matches,
}

-- What a filter lets through: any value, one value, or one of several.
abbrev pub Selects : Filter → Str → Type 0
Selects unconstrained value = Unit
Selects (single wanted) value = value ≡ wanted
Selects (among wanted) value = contains wanted value ≡ true

-- A set of names that a filter lets through: any set, or one with a wanted name in it.
abbrev pub Meets : Filter → List Str → Type 0
Meets unconstrained names = Unit
Meets filter_ names = (name : Str) × Selects filter_ name × (contains names name ≡ true)

excludes_iff : (f : Filter) (value : Str) → (excludes (normalize f) value ≡ false) ↔ Selects f value
unfolding normalize
excludes_iff unconstrained value = (λ _. tt, λ _. refl)
excludes_iff (single wanted) value = ground arith
excludes_iff (among wanted) value = ground arith

overlap :
    (wanted names : List Str)
    → isdisjoint wanted names ≡ false
    → (name : Str) × (contains wanted name ≡ true) × (contains names name ≡ true)
unfolding isdisjoint
overlap wanted [] h = cc
overlap wanted (y ∷ names) h = elim (Bool-cases (contains wanted y)) [
  | inl here ↦ (y, here, ground arith)
  | inr away ↦ let (name, w, n) = overlap wanted names (ground arith) in (name, w, ground arith)
]

overlaps :
    (wanted names : List Str) (name : Str)
    → contains wanted name ≡ true
    → contains names name ≡ true
    → isdisjoint wanted names ≡ false
unfolding isdisjoint
overlaps wanted [] name w n = cc
overlaps wanted (y ∷ names) name w n = ground (arith, overlaps wanted names name)

misses_iff : (f : Filter) (names : List Str) → (misses (normalize f) names ≡ false) ↔ Meets f names
unfolding normalize
misses_iff unconstrained names = (λ _. tt, λ _. refl)
misses_iff (single wanted) names = (
  λ h. let (name, w, n) = overlap (wanted ∷ []) names h in (name, ground arith, n),
  λ (name, w, n). overlaps (wanted ∷ []) names name (ground arith) n,
)
misses_iff (among wanted) names =
    (λ h. overlap wanted names h, λ (name, w, n). overlaps wanted names name w n)

module _ (pb : Protobuf) where
  -- A listener receives a record exactly when its vin filter lets the vin through, its topic filter
  -- the topic's string, and its field filter one of the record's field names. A filter that is an
  -- empty iterable lets nothing through, and a lone string only the whole string.
  pub matches_iff :
      (callback : ℕ) (vin topic field : Filter) (r : Record pb) (field_keys : List Str)
      → (matches pb
            (record {
              callback = callback;
              vins = normalize vin;
              topics = normalize topic;
              fields = normalize field;
            })
            r
            field_keys
          ≡ true)
        ↔ (Selects vin r.vin × Selects topic (topic_value r.topic) × Meets field field_keys)
  unfolding matches
  matches_iff callback vin topic field r field_keys = ground (
    arith,
    excludes_iff vin r.vin,
    excludes_iff topic (topic_value r.topic),
    misses_iff field field_keys,
  )
