-- ===== src/Units/Alternate.antt =====
-- unit.go: the entries of unitTable for the alternate extension table, codes 200h to 27Fh.
use gombus.Prelude.{ℕ, List, [], ◌∷◌}
use gombus.Prelude.Int.{pos, neg}
use gombus.Units.{ValueUnit, typed, described}
use gombus.Units.MeasureUnit
use gombus.Units.VifUnitExt

unfoldable pub alternate_units : List (ℕ × ValueUnit)
alternate_units =
    (0x200, described 1 (pos 5) MeasureUnit.wh "Energy")
    ∷ (0x201, described 1 (pos 6) MeasureUnit.wh "Energy")
    ∷ (0x202, described 1 (pos 0) "Reserved" "Reserved")
    ∷ (0x203, described 1 (pos 0) "Reserved" "Reserved")
    ∷ (0x204, described 1 (pos 0) "Reserved" "Reserved")
    ∷ (0x205, described 1 (pos 0) "Reserved" "Reserved")
    ∷ (0x206, described 1 (pos 0) "Reserved" "Reserved")
    ∷ (0x207, described 1 (pos 0) "Reserved" "Reserved")
    ∷ (0x208, described 1 (pos 8) "Reserved" "Energy")
    ∷ (0x209, described 1 (pos 9) "Reserved" "Energy")
    ∷ (0x20A, described 1 (pos 0) "Reserved" "Reserved")
    ∷ (0x20B, described 1 (pos 0) "Reserved" "Reserved")
    ∷ (0x20C, described 1 (pos 0) "Reserved" "Reserved")
    ∷ (0x20D, described 1 (pos 0) "Reserved" "Reserved")
    ∷ (0x20E, described 1 (pos 0) "Reserved" "Reserved")
    ∷ (0x20F, described 1 (pos 0) "Reserved" "Reserved")
    ∷ (0x210, described 1 (pos 2) MeasureUnit.m3 "Volume")
    ∷ (0x211, described 1 (pos 3) MeasureUnit.m3 "Volume")
    ∷ (0x212, described 1 (pos 0) "Reserved" "Reserved")
    ∷ (0x213, described 1 (pos 0) "Reserved" "Reserved")
    ∷ (0x214, described 1 (pos 0) "Reserved" "Reserved")
    ∷ (0x215, described 1 (pos 0) "Reserved" "Reserved")
    ∷ (0x216, described 1 (pos 0) "Reserved" "Reserved")
    ∷ (0x217, described 1 (pos 0) "Reserved" "Reserved")
    ∷ (0x218, described 1 (pos 5) MeasureUnit.kg "Mass")
    ∷ (0x219, described 1 (pos 6) MeasureUnit.kg "Mass")
    ∷ (0x21A, typed 1 (neg 1) MeasureUnit.percent VifUnitExt.relative_humidity)
    ∷ (0x21B, described 1 (pos 0) "Reserved" "Reserved")
    ∷ (0x21C, described 1 (pos 0) "Reserved" "Reserved")
    ∷ (0x21D, described 1 (pos 0) "Reserved" "Reserved")
    ∷ (0x21E, described 1 (pos 0) "Reserved" "Reserved")
    ∷ (0x21F, described 1 (pos 0) "Reserved" "Reserved")
    ∷ (0x220, described 1 (pos 0) "Reserved" "Reserved")
    ∷ (0x221, described 1 (neg 1) "feet^3" "Volume")
    ∷ (0x222, described 1 (neg 1) "American gallon" "Volume")
    ∷ (0x223, described 1 (pos 0) "American gallon" "Volume")
    ∷ (0x224, described 1 (neg 3) "American gallon/min" "Volume flow")
    ∷ (0x225, described 1 (pos 0) "American gallon/min" "Volume flow")
    ∷ (0x226, described 1 (pos 0) "American gallon/h" "Volume flow")
    ∷ (0x227, described 1 (pos 0) "Reserved" "Reserved")
    ∷ (0x228, described 1 (pos 5) MeasureUnit.w "Power")
    ∷ (0x229, described 1 (pos 6) MeasureUnit.w "Power")
    ∷ (0x22A, described 1 (pos 0) "Reserved" "Reserved")
    ∷ (0x22B, described 1 (pos 0) "Reserved" "Reserved")
    ∷ (0x22C, described 1 (pos 0) "Reserved" "Reserved")
    ∷ (0x22D, described 1 (pos 0) "Reserved" "Reserved")
    ∷ (0x22E, described 1 (pos 0) "Reserved" "Reserved")
    ∷ (0x22F, described 1 (pos 0) "Reserved" "Reserved")
    ∷ (0x230, described 1 (pos 8) MeasureUnit.j "Power")
    ∷ (0x231, described 1 (pos 9) MeasureUnit.j "Power")
    ∷ (0x232, described 1 (pos 0) "Reserved" "Reserved")
    ∷ (0x233, described 1 (pos 0) "Reserved" "Reserved")
    ∷ (0x234, described 1 (pos 0) "Reserved" "Reserved")
    ∷ (0x235, described 1 (pos 0) "Reserved" "Reserved")
    ∷ (0x236, described 1 (pos 0) "Reserved" "Reserved")
    ∷ (0x237, described 1 (pos 0) "Reserved" "Reserved")
    ∷ (0x238, described 1 (pos 0) "Reserved" "Reserved")
    ∷ (0x239, described 1 (pos 0) "Reserved" "Reserved")
    ∷ (0x23A, described 1 (pos 0) "Reserved" "Reserved")
    ∷ (0x23B, described 1 (pos 0) "Reserved" "Reserved")
    ∷ (0x23C, described 1 (pos 0) "Reserved" "Reserved")
    ∷ (0x23D, described 1 (pos 0) "Reserved" "Reserved")
    ∷ (0x23E, described 1 (pos 0) "Reserved" "Reserved")
    ∷ (0x23F, described 1 (pos 0) "Reserved" "Reserved")
    ∷ []

unfoldable pub alternate_units_high : List (ℕ × ValueUnit)
alternate_units_high =
    (0x240, described 1 (pos 0) "Reserved" "Reserved")
    ∷ (0x241, described 1 (pos 0) "Reserved" "Reserved")
    ∷ (0x242, described 1 (pos 0) "Reserved" "Reserved")
    ∷ (0x243, described 1 (pos 0) "Reserved" "Reserved")
    ∷ (0x244, described 1 (pos 0) "Reserved" "Reserved")
    ∷ (0x245, described 1 (pos 0) "Reserved" "Reserved")
    ∷ (0x246, described 1 (pos 0) "Reserved" "Reserved")
    ∷ (0x247, described 1 (pos 0) "Reserved" "Reserved")
    ∷ (0x248, described 1 (pos 0) "Reserved" "Reserved")
    ∷ (0x249, described 1 (pos 0) "Reserved" "Reserved")
    ∷ (0x24A, described 1 (pos 0) "Reserved" "Reserved")
    ∷ (0x24B, described 1 (pos 0) "Reserved" "Reserved")
    ∷ (0x24C, described 1 (pos 0) "Reserved" "Reserved")
    ∷ (0x24D, described 1 (pos 0) "Reserved" "Reserved")
    ∷ (0x24E, described 1 (pos 0) "Reserved" "Reserved")
    ∷ (0x24F, described 1 (pos 0) "Reserved" "Reserved")
    ∷ (0x250, described 1 (pos 0) "Reserved" "Reserved")
    ∷ (0x251, described 1 (pos 0) "Reserved" "Reserved")
    ∷ (0x252, described 1 (pos 0) "Reserved" "Reserved")
    ∷ (0x253, described 1 (pos 0) "Reserved" "Reserved")
    ∷ (0x254, described 1 (pos 0) "Reserved" "Reserved")
    ∷ (0x255, described 1 (pos 0) "Reserved" "Reserved")
    ∷ (0x256, described 1 (pos 0) "Reserved" "Reserved")
    ∷ (0x257, described 1 (pos 0) "Reserved" "Reserved")
    ∷ (0x258, described 1 (neg 3) "degF" "Flow temperature")
    ∷ (0x259, described 1 (neg 2) "degF" "Flow temperature")
    ∷ (0x25A, described 1 (neg 1) "degF" "Flow temperature")
    ∷ (0x25B, described 1 (pos 0) "degF" "Flow temperature")
    ∷ (0x25C, described 1 (neg 3) "degF" "Return temperature")
    ∷ (0x25D, described 1 (neg 2) "degF" "Return temperature")
    ∷ (0x25E, described 1 (neg 1) "degF" "Return temperature")
    ∷ (0x25F, described 1 (pos 0) "degF" "Return temperature")
    ∷ (0x260, described 1 (neg 3) "degF" "Temperature difference")
    ∷ (0x261, described 1 (neg 2) "degF" "Temperature difference")
    ∷ (0x262, described 1 (neg 1) "degF" "Temperature difference")
    ∷ (0x263, described 1 (pos 0) "degF" "Temperature difference")
    ∷ (0x264, described 1 (neg 3) "degF" "External temperature")
    ∷ (0x265, described 1 (neg 2) "degF" "External temperature")
    ∷ (0x266, described 1 (neg 1) "degF" "External temperature")
    ∷ (0x267, described 1 (pos 0) "degF" "External temperature")
    ∷ (0x268, described 1 (pos 0) "Reserved" "Reserved")
    ∷ (0x269, described 1 (pos 0) "Reserved" "Reserved")
    ∷ (0x26A, described 1 (pos 0) "Reserved" "Reserved")
    ∷ (0x26B, described 1 (pos 0) "Reserved" "Reserved")
    ∷ (0x26C, described 1 (pos 0) "Reserved" "Reserved")
    ∷ (0x26D, described 1 (pos 0) "Reserved" "Reserved")
    ∷ (0x26E, described 1 (pos 0) "Reserved" "Reserved")
    ∷ (0x26F, described 1 (pos 0) "Reserved" "Reserved")
    ∷ (0x270, described 1 (neg 3) "degF" "Cold / Warm Temperature Limit")
    ∷ (0x271, described 1 (neg 2) "degF" "Cold / Warm Temperature Limit")
    ∷ (0x272, described 1 (neg 1) "degF" "Cold / Warm Temperature Limit")
    ∷ (0x273, described 1 (pos 0) "degF" "Cold / Warm Temperature Limit")
    ∷ (0x274, described 1 (neg 3) MeasureUnit.c "Cold / Warm Temperature Limit")
    ∷ (0x275, described 1 (neg 2) MeasureUnit.c "Cold / Warm Temperature Limit")
    ∷ (0x276, described 1 (neg 1) MeasureUnit.c "Cold / Warm Temperature Limit")
    ∷ (0x277, described 1 (pos 0) MeasureUnit.c "Cold / Warm Temperature Limit")
    ∷ (0x279, described 1 (neg 3) MeasureUnit.w "Cumul count max power")
    ∷ (0x278, described 1 (neg 3) MeasureUnit.w "Cumul count max power")
    ∷ (0x27A, described 1 (neg 1) MeasureUnit.w "Cumul count max power")
    ∷ (0x27B, described 1 (pos 0) MeasureUnit.w "Cumul count max power")
    ∷ (0x27C, described 1 (pos 1) MeasureUnit.w "Cumul count max power")
    ∷ (0x27D, described 1 (pos 2) MeasureUnit.w "Cumul count max power")
    ∷ (0x27E, described 1 (pos 3) MeasureUnit.w "Cumul count max power")
    ∷ (0x27F, described 1 (pos 4) MeasureUnit.w "Cumul count max power")
    ∷ []
