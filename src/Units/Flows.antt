-- ===== src/Units/Flows.antt =====
-- unit.go: the entries of unitTable for the VIFs 38h to FFh.
use gombus.Prelude.{ℕ, List, [], ◌∷◌}
use gombus.Prelude.Int.{pos, neg}
use gombus.Units.{ValueUnit, typed, typed_raw, typed_date, date_type_g, date_type_f}
use gombus.Units.MeasureUnit
use gombus.Units.VifUnit

unfoldable pub flow_units : List (ℕ × ValueUnit)
flow_units =
    (0x38, typed 1 (neg 6) MeasureUnit.m3_h VifUnit.volume_flow)
    ∷ (0x39, typed 1 (neg 5) MeasureUnit.m3_h VifUnit.volume_flow)
    ∷ (0x3A, typed 1 (neg 4) MeasureUnit.m3_h VifUnit.volume_flow)
    ∷ (0x3B, typed 1 (neg 3) MeasureUnit.m3_h VifUnit.volume_flow)
    ∷ (0x3C, typed 1 (neg 2) MeasureUnit.m3_h VifUnit.volume_flow)
    ∷ (0x3D, typed 1 (neg 1) MeasureUnit.m3_h VifUnit.volume_flow)
    ∷ (0x3E, typed 1 (pos 0) MeasureUnit.m3_h VifUnit.volume_flow)
    ∷ (0x3F, typed 1 (pos 1) MeasureUnit.m3_h VifUnit.volume_flow)
    ∷ (0x40, typed 1 (neg 7) MeasureUnit.m3_min VifUnit.volume_flow_ext)
    ∷ (0x41, typed 1 (neg 6) MeasureUnit.m3_min VifUnit.volume_flow_ext)
    ∷ (0x42, typed 1 (neg 5) MeasureUnit.m3_min VifUnit.volume_flow_ext)
    ∷ (0x43, typed 1 (neg 4) MeasureUnit.m3_min VifUnit.volume_flow_ext)
    ∷ (0x44, typed 1 (neg 3) MeasureUnit.m3_min VifUnit.volume_flow_ext)
    ∷ (0x45, typed 1 (neg 2) MeasureUnit.m3_min VifUnit.volume_flow_ext)
    ∷ (0x46, typed 1 (neg 1) MeasureUnit.m3_min VifUnit.volume_flow_ext)
    ∷ (0x47, typed 1 (pos 0) MeasureUnit.m3_min VifUnit.volume_flow_ext)
    ∷ (0x48, typed 1 (neg 9) MeasureUnit.m3_s VifUnit.volume_flow_ext_s)
    ∷ (0x49, typed 1 (neg 8) MeasureUnit.m3_s VifUnit.volume_flow_ext_s)
    ∷ (0x4A, typed 1 (neg 7) MeasureUnit.m3_s VifUnit.volume_flow_ext_s)
    ∷ (0x4B, typed 1 (neg 6) MeasureUnit.m3_s VifUnit.volume_flow_ext_s)
    ∷ (0x4C, typed 1 (neg 5) MeasureUnit.m3_s VifUnit.volume_flow_ext_s)
    ∷ (0x4D, typed 1 (neg 4) MeasureUnit.m3_s VifUnit.volume_flow_ext_s)
    ∷ (0x4E, typed 1 (neg 3) MeasureUnit.m3_s VifUnit.volume_flow_ext_s)
    ∷ (0x4F, typed 1 (neg 2) MeasureUnit.m3_s VifUnit.volume_flow_ext_s)
    ∷ (0x50, typed 1 (neg 3) MeasureUnit.kg_h VifUnit.mass_flow)
    ∷ (0x51, typed 1 (neg 2) MeasureUnit.kg_h VifUnit.mass_flow)
    ∷ (0x52, typed 1 (neg 1) MeasureUnit.kg_h VifUnit.mass_flow)
    ∷ (0x53, typed 1 (pos 0) MeasureUnit.kg_h VifUnit.mass_flow)
    ∷ (0x54, typed 1 (pos 1) MeasureUnit.kg_h VifUnit.mass_flow)
    ∷ (0x55, typed 1 (pos 2) MeasureUnit.kg_h VifUnit.mass_flow)
    ∷ (0x56, typed 1 (pos 3) MeasureUnit.kg_h VifUnit.mass_flow)
    ∷ (0x57, typed 1 (pos 4) MeasureUnit.kg_h VifUnit.mass_flow)
    ∷ []

unfoldable pub temperature_units : List (ℕ × ValueUnit)
temperature_units =
    (0x58, typed 1 (neg 3) MeasureUnit.c VifUnit.flow_temperature)
    ∷ (0x59, typed 1 (neg 2) MeasureUnit.c VifUnit.flow_temperature)
    ∷ (0x5A, typed 1 (neg 1) MeasureUnit.c VifUnit.flow_temperature)
    ∷ (0x5B, typed 1 (pos 0) MeasureUnit.c VifUnit.flow_temperature)
    ∷ (0x5C, typed 1 (neg 3) MeasureUnit.c VifUnit.return_temperature)
    ∷ (0x5D, typed 1 (neg 2) MeasureUnit.c VifUnit.return_temperature)
    ∷ (0x5E, typed 1 (neg 1) MeasureUnit.c VifUnit.return_temperature)
    ∷ (0x5F, typed 1 (pos 0) MeasureUnit.c VifUnit.return_temperature)
    ∷ (0x60, typed 1 (neg 3) MeasureUnit.k VifUnit.temperature_difference)
    ∷ (0x61, typed 1 (neg 2) MeasureUnit.k VifUnit.temperature_difference)
    ∷ (0x62, typed 1 (neg 1) MeasureUnit.k VifUnit.temperature_difference)
    ∷ (0x63, typed 1 (pos 0) MeasureUnit.k VifUnit.temperature_difference)
    ∷ (0x64, typed 1 (neg 3) MeasureUnit.c VifUnit.external_temperature)
    ∷ (0x65, typed 1 (neg 2) MeasureUnit.c VifUnit.external_temperature)
    ∷ (0x66, typed 1 (neg 1) MeasureUnit.c VifUnit.external_temperature)
    ∷ (0x67, typed 1 (pos 0) MeasureUnit.c VifUnit.external_temperature)
    ∷ (0x68, typed 1 (neg 3) MeasureUnit.bar VifUnit.pressure)
    ∷ (0x69, typed 1 (neg 2) MeasureUnit.bar VifUnit.pressure)
    ∷ (0x6A, typed 1 (neg 1) MeasureUnit.bar VifUnit.pressure)
    ∷ (0x6B, typed 1 (pos 0) MeasureUnit.bar VifUnit.pressure)
    ∷ []

unfoldable pub other_units : List (ℕ × ValueUnit)
other_units =
    (0x6C, typed_date 1 (pos 0) MeasureUnit.date VifUnit.date date_type_g)
    ∷ (0x6D, typed_date 1 (pos 0) MeasureUnit.date_time VifUnit.date_time date_type_f)
    ∷ (0x6E, typed 1 (pos 0) MeasureUnit.hca VifUnit.units_for_hca)
    ∷ (0x6F, typed 0 (pos 0) MeasureUnit.none VifUnit.res_third_vife_table)
    ∷ (0x70, typed 1 (pos 0) MeasureUnit.seconds VifUnit.avg_duration)
    ∷ (0x71, typed 60 (pos 0) MeasureUnit.seconds VifUnit.avg_duration)
    ∷ (0x72, typed 3600 (pos 0) MeasureUnit.seconds VifUnit.avg_duration)
    ∷ (0x73, typed 86400 (pos 0) MeasureUnit.seconds VifUnit.avg_duration)
    ∷ (0x74, typed 1 (pos 0) MeasureUnit.seconds VifUnit.actuality_duration)
    ∷ (0x75, typed 60 (pos 0) MeasureUnit.seconds VifUnit.actuality_duration)
    ∷ (0x76, typed 3600 (pos 0) MeasureUnit.seconds VifUnit.actuality_duration)
    ∷ (0x77, typed 86400 (pos 0) MeasureUnit.seconds VifUnit.actuality_duration)
    ∷ (0x78, typed_raw 1 (pos 0) MeasureUnit.none VifUnit.fabrication_no)
    ∷ (0x79, typed_raw 1 (pos 0) MeasureUnit.none VifUnit.identification)
    ∷ (0x7A, typed_raw 1 (pos 0) MeasureUnit.none VifUnit.address)
    ∷ (0x7C, typed 1 (pos 0) MeasureUnit.none VifUnit.any_vif)
    ∷ (0x7E, typed 1 (pos 0) MeasureUnit.none VifUnit.any_vif)
    ∷ (0x7F, typed 1 (pos 0) MeasureUnit.none VifUnit.manufacturer_spec)
    ∷ (0xFE, typed 1 (pos 0) MeasureUnit.none VifUnit.any_vif)
    ∷ (0xFF, typed 1 (pos 0) MeasureUnit.none VifUnit.manufacturer_spec)
    ∷ []
