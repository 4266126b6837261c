-- ===== src/EndToEnd/Config.antt =====
-- examples/end_to_end.py: `DEFAULT_FIELDS` and `build_config_body`, and what is read of a JSON
-- answer.
use python_fleet_telemetry.Prelude.{
  zero, suc, Bool, true, false, Option, none, some, [], ◌∷◌, Str, codes, ◌==◌, str_eq,
  if◌then◌else◌,
}
use python_fleet_telemetry.Prelude.Dict.{Dict}
use python_fleet_telemetry.Text.Decimal.{ℤ, pos, negsuc}

-- A JSON value as Python holds it, less the floats.
mutual
  pub data Json : Type 0 where
    null : Json
    boolean : Bool → Json
    number : ℤ → Json
    string : Str → Json
    array : Elements → Json
    object : Members → Json

  pub data Elements : Type 0 where
    empty : Elements
    element : Json → Elements → Elements

  pub data Members : Type 0 where
    end : Members
    member : Str → Json → Members → Members

-- `bool(value)`
unfoldable pub truthy : Json → Bool
truthy null = false
truthy (boolean b) = b
truthy (number n) = elim n [ pos k ↦ elim k [ zero ↦ false | suc j ↦ true ] | negsuc k ↦ true ]
truthy (string []) = false
truthy (string (c ∷ s)) = true
truthy (array empty) = false
truthy (array (element v vs)) = true
truthy (object end) = false
truthy (object (member k v ms)) = true

-- `members.get(key)`
unfoldable pub get : Members → Str → Option Json
get end key = none
get (member k v ms) key = let rest = get ms key in if k == key then some v else rest

abbrev pub interval : ℤ → Json
interval seconds = object (member (codes "interval_seconds") (number seconds) end)

unfoldable pub field_intervals : Dict Str ℤ → Members
field_intervals [] = end
field_intervals ((name, seconds) ∷ fields) = member name (interval seconds) (field_intervals fields)

-- `DEFAULT_FIELDS`
abbrev pub default_fields : Dict Str ℤ
default_fields =
    (codes "VehicleSpeed", pos 10)
    ∷ (codes "Location", pos 10)
    ∷ (codes "Soc", pos 60)
    ∷ (codes "Gear", pos 5)
    ∷ []

unfoldable pub build_config_body : Str → Str → ℤ → Str → Dict Str ℤ → Json
unfolding field_intervals
build_config_body vin fqdn port ca_pem fields = object (
    member (codes "vins") (array (element (string vin) empty)) (
      member (codes "config")
        (object (
          member (codes "hostname") (string fqdn) (
            member (codes "port") (number port) (
              member (codes "ca") (string ca_pem) (
                member (codes "fields") (object (field_intervals fields))
                  (member (codes "prefer_typed") (boolean true) end))))))
        end))
