-- ===== src/Units/Table.antt =====
-- unit.go: the whole of unitTable, and the lookup of a code in it.
use gombus.Prelude.{ℕ, List, [], ◌∷◌, ◌++◌, Option, none, some, ◌==◌, if◌then◌else◌}
use gombus.Units.{ValueUnit}
use gombus.Units.Primary.{energy_units, volume_mass_units, time_units, power_units}
use gombus.Units.Flows.{flow_units, temperature_units, other_units}
use gombus.Units.Extension.{identification_units, storage_units}
use gombus.Units.Electrical.{volt_units, ampere_units, extension_units}
use gombus.Units.Alternate.{alternate_units, alternate_units_high}

-- A Go map with a key that is a number, as the list of its entries.
unfoldable pub lookup_code {ℓ} : {A : Type ℓ} → ℕ → List (ℕ × A) → Option A
lookup_code code [] = none
lookup_code code ((c, u) ∷ rest) = if c == code then some u else lookup_code code rest

unfoldable pub unit_table : List (ℕ × ValueUnit)
unfolding energy_units volume_mass_units time_units power_units flow_units temperature_units
    other_units identification_units storage_units volt_units ampere_units extension_units
    alternate_units alternate_units_high
unit_table =
    energy_units
    ++ (volume_mass_units
        ++ (time_units
            ++ (power_units
                ++ (flow_units
                    ++ (temperature_units
                        ++ (other_units
                            ++ (identification_units
                                ++ (storage_units
                                    ++ (volt_units
                                        ++ (ampere_units
                                            ++ (extension_units
                                                ++ (alternate_units
                                                    ++ alternate_units_high))))))))))))
