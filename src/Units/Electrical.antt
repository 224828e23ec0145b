-- ===== src/Units/Electrical.antt =====
-- unit.go: the entries of unitTable for the first extension table, codes 140h to 17Fh.
use gombus.Prelude.{ℕ, List, [], ◌∷◌}
use gombus.Prelude.Int.{pos, neg}
use gombus.Units.{ValueUnit, typed, typed_raw}
use gombus.Units.MeasureUnit
use gombus.Units.VifUnitExt

unfoldable pub volt_units : List (ℕ × ValueUnit)
volt_units =
    (0x140, typed 1 (neg 9) MeasureUnit.v VifUnitExt.volts)
    ∷ (0x141, typed 1 (neg 8) MeasureUnit.v VifUnitExt.volts)
    ∷ (0x142, typed 1 (neg 7) MeasureUnit.v VifUnitExt.volts)
    ∷ (0x143, typed 1 (neg 6) MeasureUnit.v VifUnitExt.volts)
    ∷ (0x144, typed 1 (neg 5) MeasureUnit.v VifUnitExt.volts)
    ∷ (0x145, typed 1 (neg 4) MeasureUnit.v VifUnitExt.volts)
    ∷ (0x146, typed 1 (neg 3) MeasureUnit.v VifUnitExt.volts)
    ∷ (0x147, typed 1 (neg 2) MeasureUnit.v VifUnitExt.volts)
    ∷ (0x148, typed 1 (neg 1) MeasureUnit.v VifUnitExt.volts)
    ∷ (0x149, typed 1 (pos 0) MeasureUnit.v VifUnitExt.volts)
    ∷ (0x14A, typed 1 (pos 1) MeasureUnit.v VifUnitExt.volts)
    ∷ (0x14B, typed 1 (pos 2) MeasureUnit.v VifUnitExt.volts)
    ∷ (0x14C, typed 1 (pos 3) MeasureUnit.v VifUnitExt.volts)
    ∷ (0x14D, typed 1 (pos 4) MeasureUnit.v VifUnitExt.volts)
    ∷ (0x14E, typed 1 (pos 5) MeasureUnit.v VifUnitExt.volts)
    ∷ (0x14F, typed 1 (pos 6) MeasureUnit.v VifUnitExt.volts)
    ∷ []

unfoldable pub ampere_units : List (ℕ × ValueUnit)
ampere_units =
    (0x150, typed 1 (neg 12) MeasureUnit.a VifUnitExt.ampere)
    ∷ (0x151, typed 1 (neg 11) MeasureUnit.a VifUnitExt.ampere)
    ∷ (0x152, typed 1 (neg 10) MeasureUnit.a VifUnitExt.ampere)
    ∷ (0x153, typed 1 (neg 9) MeasureUnit.a VifUnitExt.ampere)
    ∷ (0x154, typed 1 (neg 8) MeasureUnit.a VifUnitExt.ampere)
    ∷ (0x155, typed 1 (neg 7) MeasureUnit.a VifUnitExt.ampere)
    ∷ (0x156, typed 1 (neg 6) MeasureUnit.a VifUnitExt.ampere)
    ∷ (0x157, typed 1 (neg 5) MeasureUnit.a VifUnitExt.ampere)
    ∷ (0x158, typed 1 (neg 4) MeasureUnit.a VifUnitExt.ampere)
    ∷ (0x159, typed 1 (neg 3) MeasureUnit.a VifUnitExt.ampere)
    ∷ (0x15A, typed 1 (neg 2) MeasureUnit.a VifUnitExt.ampere)
    ∷ (0x15B, typed 1 (neg 1) MeasureUnit.a VifUnitExt.ampere)
    ∷ (0x15C, typed 1 (pos 0) MeasureUnit.a VifUnitExt.ampere)
    ∷ (0x15D, typed 1 (pos 1) MeasureUnit.a VifUnitExt.ampere)
    ∷ (0x15E, typed 1 (pos 2) MeasureUnit.a VifUnitExt.ampere)
    ∷ (0x15F, typed 1 (pos 3) MeasureUnit.a VifUnitExt.ampere)
    ∷ []

unfoldable pub extension_units : List (ℕ × ValueUnit)
extension_units =
    (0x160, typed 1 (pos 0) MeasureUnit.none VifUnitExt.reset_counter)
    ∷ (0x161, typed 1 (pos 0) MeasureUnit.none VifUnitExt.cumulation_counter)
    ∷ (0x162, typed 1 (pos 0) MeasureUnit.none VifUnitExt.control_signal)
    ∷ (0x163, typed 1 (pos 0) MeasureUnit.none VifUnitExt.day_of_week)
    ∷ (0x164, typed 1 (pos 0) MeasureUnit.none VifUnitExt.week_number)
    ∷ (0x165, typed 1 (pos 0) MeasureUnit.none VifUnitExt.time_point_of_day_change)
    ∷ (0x166, typed 1 (pos 0) MeasureUnit.none VifUnitExt.state_of_parameter_activation)
    ∷ (0x167, typed 1 (pos 0) MeasureUnit.none VifUnitExt.special_supplier_information)
    ∷ (0x168, typed 3600 (pos 0) MeasureUnit.seconds VifUnitExt.duration_since_last_cumulation)
    ∷ (0x169, typed 86400 (pos 0) MeasureUnit.seconds VifUnitExt.duration_since_last_cumulation)
    ∷ (0x16A, typed 262974383 (neg 2) MeasureUnit.seconds VifUnitExt.duration_since_last_cumulation)
    ∷ (0x16B, typed 31556926 (pos 0) MeasureUnit.seconds VifUnitExt.duration_since_last_cumulation)
    ∷ (0x16C, typed 3600 (pos 0) MeasureUnit.seconds VifUnitExt.operating_time_battery)
    ∷ (0x16D, typed 86400 (pos 0) MeasureUnit.seconds VifUnitExt.operating_time_battery)
    ∷ (0x16E, typed 262974383 (neg 2) MeasureUnit.seconds VifUnitExt.operating_time_battery)
    ∷ (0x16F, typed 31556926 (pos 0) MeasureUnit.seconds VifUnitExt.operating_time_battery)
    ∷ (0x170, typed_raw 1 (pos 0) MeasureUnit.none VifUnitExt.dateand_time_of_battery_change)
    ∷ (0x171, typed 1 (pos 0) MeasureUnit.dbm VifUnitExt.rssi)
    ∷ (0x172, typed 1 (pos 0) MeasureUnit.none VifUnitExt.reserved)
    ∷ (0x173, typed 1 (pos 0) MeasureUnit.none VifUnitExt.reserved)
    ∷ (0x174, typed 1 (pos 0) MeasureUnit.none VifUnitExt.reserved)
    ∷ (0x175, typed 1 (pos 0) MeasureUnit.none VifUnitExt.reserved)
    ∷ (0x176, typed 1 (pos 0) MeasureUnit.none VifUnitExt.reserved)
    ∷ (0x177, typed 1 (pos 0) MeasureUnit.none VifUnitExt.reserved)
    ∷ (0x178, typed 1 (pos 0) MeasureUnit.none VifUnitExt.reserved)
    ∷ (0x179, typed 1 (pos 0) MeasureUnit.none VifUnitExt.reserved)
    ∷ (0x17A, typed 1 (pos 0) MeasureUnit.none VifUnitExt.reserved)
    ∷ (0x17B, typed 1 (pos 0) MeasureUnit.none VifUnitExt.reserved)
    ∷ (0x17C, typed 1 (pos 0) MeasureUnit.none VifUnitExt.reserved)
    ∷ (0x17D, typed 1 (pos 0) MeasureUnit.none VifUnitExt.reserved)
    ∷ (0x17E, typed 1 (pos 0) MeasureUnit.none VifUnitExt.reserved)
    ∷ (0x17F, typed 1 (pos 0) MeasureUnit.none VifUnitExt.reserved)
    ∷ []
