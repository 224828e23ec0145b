-- ===== src/Units/Extension.antt =====
-- unit.go: the entries of unitTable for the first extension table, codes 100h to 13Fh.
use gombus.Prelude.{ℕ, List, [], ◌∷◌}
use gombus.Prelude.Int.{pos, neg}
use gombus.Units.{ValueUnit, typed, typed_raw}
use gombus.Units.MeasureUnit
use gombus.Units.VifUnitExt

unfoldable pub identification_units : List (ℕ × ValueUnit)
identification_units =
    (0x100, typed 1 (neg 3) MeasureUnit.currency VifUnitExt.currency_credit)
    ∷ (0x101, typed 1 (neg 2) MeasureUnit.currency VifUnitExt.currency_credit)
    ∷ (0x102, typed 1 (neg 1) MeasureUnit.currency VifUnitExt.currency_credit)
    ∷ (0x103, typed 1 (pos 0) MeasureUnit.currency VifUnitExt.currency_credit)
    ∷ (0x104, typed 1 (neg 3) MeasureUnit.currency VifUnitExt.currency_debit)
    ∷ (0x105, typed 1 (neg 2) MeasureUnit.currency VifUnitExt.currency_debit)
    ∷ (0x106, typed 1 (neg 1) MeasureUnit.currency VifUnitExt.currency_debit)
    ∷ (0x107, typed 1 (pos 0) MeasureUnit.currency VifUnitExt.currency_debit)
    ∷ (0x108, typed 1 (pos 0) MeasureUnit.none VifUnitExt.access_number)
    ∷ (0x109, typed 1 (pos 0) MeasureUnit.none VifUnitExt.medium)
    ∷ (0x10A, typed 1 (pos 0) MeasureUnit.none VifUnitExt.manufacturer)
    ∷ (0x10B, typed 1 (pos 0) MeasureUnit.none VifUnitExt.parameter_set_id)
    ∷ (0x10C, typed 1 (pos 0) MeasureUnit.none VifUnitExt.model_version)
    ∷ (0x10D, typed 1 (pos 0) MeasureUnit.none VifUnitExt.hardware_version)
    ∷ (0x10E, typed 1 (pos 0) MeasureUnit.none VifUnitExt.firmware_version)
    ∷ (0x10F, typed 1 (pos 0) MeasureUnit.none VifUnitExt.software_version)
    ∷ (0x110, typed 1 (pos 0) MeasureUnit.none VifUnitExt.customer_location)
    ∷ (0x111, typed 1 (pos 0) MeasureUnit.none VifUnitExt.customer)
    ∷ (0x112, typed 1 (pos 0) MeasureUnit.none VifUnitExt.access_code_user)
    ∷ (0x113, typed 1 (pos 0) MeasureUnit.none VifUnitExt.access_code_operator)
    ∷ (0x114, typed 1 (pos 0) MeasureUnit.none VifUnitExt.access_code_system_operator)
    ∷ (0x115, typed 1 (pos 0) MeasureUnit.none VifUnitExt.access_code_developer)
    ∷ (0x116, typed 1 (pos 0) MeasureUnit.none VifUnitExt.password)
    ∷ (0x117, typed_raw 1 (pos 0) MeasureUnit.none VifUnitExt.error_flags)
    ∷ (0x118, typed_raw 1 (pos 0) MeasureUnit.none VifUnitExt.error_masks)
    ∷ (0x119, typed 1 (pos 0) MeasureUnit.none VifUnitExt.reserved)
    ∷ (0x11A, typed_raw 1 (pos 0) MeasureUnit.none VifUnitExt.digital_output)
    ∷ (0x11B, typed_raw 1 (pos 0) MeasureUnit.none VifUnitExt.digital_input)
    ∷ (0x11C, typed 1 (pos 0) MeasureUnit.baud VifUnitExt.baudrate)
    ∷ (0x11D, typed 1 (pos 0) MeasureUnit.bit_times VifUnitExt.response_delay)
    ∷ (0x11E, typed 1 (pos 0) MeasureUnit.none VifUnitExt.retry)
    ∷ (0x11F, typed 1 (pos 0) MeasureUnit.none VifUnitExt.reserved_2)
    ∷ []

unfoldable pub storage_units : List (ℕ × ValueUnit)
storage_units =
    (0x120, typed 1 (pos 0) MeasureUnit.none VifUnitExt.first_storage_nr)
    ∷ (0x121, typed 1 (pos 0) MeasureUnit.none VifUnitExt.last_storage_nr)
    ∷ (0x122, typed 1 (pos 0) MeasureUnit.none VifUnitExt.size_of_storage_block)
    ∷ (0x123, typed 1 (pos 0) MeasureUnit.none VifUnitExt.reserved_3)
    ∷ (0x124, typed 1 (pos 0) MeasureUnit.seconds VifUnitExt.storage_interval)
    ∷ (0x125, typed 60 (pos 0) MeasureUnit.seconds VifUnitExt.storage_interval)
    ∷ (0x126, typed 3600 (pos 0) MeasureUnit.seconds VifUnitExt.storage_interval)
    ∷ (0x127, typed 86400 (pos 0) MeasureUnit.seconds VifUnitExt.storage_interval)
    ∷ (0x128, typed 262974383 (neg 2) MeasureUnit.seconds VifUnitExt.storage_interval)
    ∷ (0x129, typed 31556926 (pos 0) MeasureUnit.seconds VifUnitExt.storage_interval)
    ∷ (0x12A, typed 1 (pos 0) MeasureUnit.none VifUnitExt.reserved)
    ∷ (0x12B, typed 1 (pos 0) MeasureUnit.none VifUnitExt.reserved)
    ∷ (0x12C, typed 1 (pos 0) MeasureUnit.seconds VifUnitExt.duration_since_last_readout)
    ∷ (0x12D, typed 60 (pos 0) MeasureUnit.seconds VifUnitExt.duration_since_last_readout)
    ∷ (0x12E, typed 3600 (pos 0) MeasureUnit.seconds VifUnitExt.duration_since_last_readout)
    ∷ (0x12F, typed 86400 (pos 0) MeasureUnit.seconds VifUnitExt.duration_since_last_readout)
    ∷ (0x130, typed 1 (pos 0) MeasureUnit.none VifUnitExt.reserved)
    ∷ (0x131, typed 60 (pos 0) MeasureUnit.seconds VifUnitExt.storage_interval)
    ∷ (0x132, typed 3600 (pos 0) MeasureUnit.seconds VifUnitExt.storage_interval)
    ∷ (0x133, typed 86400 (pos 0) MeasureUnit.seconds VifUnitExt.storage_interval)
    ∷ (0x134, typed 1 (pos 0) MeasureUnit.seconds VifUnitExt.period_of_tariff)
    ∷ (0x135, typed 60 (pos 0) MeasureUnit.seconds VifUnitExt.period_of_tariff)
    ∷ (0x136, typed 3600 (pos 0) MeasureUnit.seconds VifUnitExt.period_of_tariff)
    ∷ (0x137, typed 86400 (pos 0) MeasureUnit.seconds VifUnitExt.period_of_tariff)
    ∷ (0x138, typed 262974383 (neg 2) MeasureUnit.seconds VifUnitExt.period_of_tariff)
    ∷ (0x139, typed 31556926 (pos 0) MeasureUnit.seconds VifUnitExt.period_of_tariff)
    ∷ (0x13A, typed 1 (pos 0) MeasureUnit.none VifUnitExt.dimensionless)
    ∷ (0x13B, typed 1 (pos 0) MeasureUnit.none VifUnitExt.reserved)
    ∷ (0x13C, typed 1 (pos 0) MeasureUnit.none VifUnitExt.reserved)
    ∷ (0x13D, typed 1 (pos 0) MeasureUnit.none VifUnitExt.reserved)
    ∷ (0x13E, typed 1 (pos 0) MeasureUnit.none VifUnitExt.reserved)
    ∷ (0x13F, typed 1 (pos 0) MeasureUnit.none VifUnitExt.reserved)
    ∷ []
