-- ===== src/Response/FixedTable.antt =====
-- decode_fixed.go: the unit codes of the fixed structure.
use gombus.Prelude.{ℕ, List, [], ◌∷◌}
use gombus.Prelude.Int.{pos, neg}
use gombus.Units.{ValueUnit, typed}
use gombus.Units.MeasureUnit
use gombus.Units.VifUnit

unfoldable pub fixed_unit_table : List (ℕ × ValueUnit)
fixed_unit_table =
    (0x0, typed 1 (pos 0) MeasureUnit.time 0)
    ∷ (0x1, typed 1 (pos 0) MeasureUnit.date 0)
    ∷ (0x2, typed 1 (pos 0) MeasureUnit.wh VifUnit.energy_wh)
    ∷ (0x3, typed 1 (pos 1) MeasureUnit.wh VifUnit.energy_wh)
    ∷ (0x4, typed 1 (pos 2) MeasureUnit.wh VifUnit.energy_wh)
    ∷ (0x5, typed 1 (pos 3) MeasureUnit.wh VifUnit.energy_wh)
    ∷ (0x6, typed 1 (pos 4) MeasureUnit.wh VifUnit.energy_wh)
    ∷ (0x7, typed 1 (pos 5) MeasureUnit.wh VifUnit.energy_wh)
    ∷ (0x8, typed 1 (pos 6) MeasureUnit.wh VifUnit.energy_wh)
    ∷ (0x9, typed 1 (pos 7) MeasureUnit.wh VifUnit.energy_wh)
    ∷ (0xA, typed 1 (pos 8) MeasureUnit.wh VifUnit.energy_wh)
    ∷ (0xB, typed 1 (pos 3) MeasureUnit.j VifUnit.energy_j)
    ∷ (0xC, typed 1 (pos 4) MeasureUnit.j VifUnit.energy_j)
    ∷ (0xD, typed 1 (pos 5) MeasureUnit.j VifUnit.energy_j)
    ∷ (0xE, typed 1 (pos 6) MeasureUnit.j VifUnit.energy_j)
    ∷ (0xF, typed 1 (pos 7) MeasureUnit.j VifUnit.energy_j)
    ∷ (0x10, typed 1 (pos 8) MeasureUnit.j VifUnit.energy_j)
    ∷ (0x11, typed 1 (pos 9) MeasureUnit.j VifUnit.energy_j)
    ∷ (0x12, typed 1 (pos 10) MeasureUnit.j VifUnit.energy_j)
    ∷ (0x13, typed 1 (pos 11) MeasureUnit.j VifUnit.energy_j)
    ∷ (0x14, typed 1 (pos 0) MeasureUnit.w VifUnit.power_w)
    ∷ (0x15, typed 1 (pos 1) MeasureUnit.w VifUnit.power_w)
    ∷ (0x16, typed 1 (pos 2) MeasureUnit.w VifUnit.power_w)
    ∷ (0x17, typed 1 (pos 3) MeasureUnit.w VifUnit.power_w)
    ∷ (0x18, typed 1 (pos 4) MeasureUnit.w VifUnit.power_w)
    ∷ (0x19, typed 1 (pos 5) MeasureUnit.w VifUnit.power_w)
    ∷ (0x1A, typed 1 (pos 6) MeasureUnit.w VifUnit.power_w)
    ∷ (0x1B, typed 1 (pos 7) MeasureUnit.w VifUnit.power_w)
    ∷ (0x1C, typed 1 (pos 8) MeasureUnit.w VifUnit.power_w)
    ∷ (0x1D, typed 1 (pos 3) MeasureUnit.j_h VifUnit.power_j_h)
    ∷ (0x1E, typed 1 (pos 4) MeasureUnit.j_h VifUnit.power_j_h)
    ∷ (0x1F, typed 1 (pos 5) MeasureUnit.j_h VifUnit.power_j_h)
    ∷ (0x20, typed 1 (pos 6) MeasureUnit.j_h VifUnit.power_j_h)
    ∷ (0x21, typed 1 (pos 7) MeasureUnit.j_h VifUnit.power_j_h)
    ∷ (0x22, typed 1 (pos 8) MeasureUnit.j_h VifUnit.power_j_h)
    ∷ (0x23, typed 1 (pos 9) MeasureUnit.j_h VifUnit.power_j_h)
    ∷ (0x24, typed 1 (pos 10) MeasureUnit.j_h VifUnit.power_j_h)
    ∷ (0x25, typed 1 (pos 11) MeasureUnit.j_h VifUnit.power_j_h)
    ∷ (0x26, typed 1 (neg 6) MeasureUnit.m3 VifUnit.volume)
    ∷ (0x27, typed 1 (neg 5) MeasureUnit.m3 VifUnit.volume)
    ∷ (0x28, typed 1 (neg 4) MeasureUnit.m3 VifUnit.volume)
    ∷ (0x29, typed 1 (neg 3) MeasureUnit.m3 VifUnit.volume)
    ∷ (0x2A, typed 1 (neg 2) MeasureUnit.m3 VifUnit.volume)
    ∷ (0x2B, typed 1 (neg 1) MeasureUnit.m3 VifUnit.volume)
    ∷ (0x2C, typed 1 (pos 0) MeasureUnit.m3 VifUnit.volume)
    ∷ (0x2D, typed 1 (pos 1) MeasureUnit.m3 VifUnit.volume)
    ∷ (0x2E, typed 1 (pos 2) MeasureUnit.m3 VifUnit.volume)
    ∷ (0x2F, typed 1 (neg 6) MeasureUnit.m3_h VifUnit.volume_flow)
    ∷ (0x30, typed 1 (neg 5) MeasureUnit.m3_h VifUnit.volume_flow)
    ∷ (0x31, typed 1 (neg 4) MeasureUnit.m3_h VifUnit.volume_flow)
    ∷ (0x32, typed 1 (neg 3) MeasureUnit.m3_h VifUnit.volume_flow)
    ∷ (0x33, typed 1 (neg 2) MeasureUnit.m3_h VifUnit.volume_flow)
    ∷ (0x34, typed 1 (neg 1) MeasureUnit.m3_h VifUnit.volume_flow)
    ∷ (0x35, typed 1 (pos 0) MeasureUnit.m3_h VifUnit.volume_flow)
    ∷ (0x36, typed 1 (pos 1) MeasureUnit.m3_h VifUnit.volume_flow)
    ∷ (0x37, typed 1 (pos 2) MeasureUnit.m3_h VifUnit.volume_flow)
    ∷ (0x38, typed 1 (neg 3) MeasureUnit.c VifUnit.external_temperature)
    ∷ (0x39, typed 1 (pos 0) MeasureUnit.hca VifUnit.units_for_hca)
    ∷ []
