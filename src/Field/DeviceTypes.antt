-- ===== src/Field/DeviceTypes.antt =====
-- field.go: the names of the medium codes.
use gombus.Prelude.{ℕ, String, List, [], ◌∷◌}
use gombus.Field.Medium

unfoldable pub device_type_names : List (ℕ × String)
device_type_names =
    (Medium.other, "Other")
    ∷ (Medium.oil, "Oil")
    ∷ (Medium.electricity, "Electricity")
    ∷ (Medium.gas, "Gas")
    ∷ (Medium.heat_out, "Heat: Outlet")
    ∷ (Medium.steam, "Steam")
    ∷ (Medium.hot_water, "Warm water (30-90°C)")
    ∷ (Medium.water, "Water")
    ∷ (Medium.heat_cost, "Heat Cost Allocator")
    ∷ (Medium.compr_air, "Compressed Air")
    ∷ (Medium.cool_out, "Cooling load meter: Outlet")
    ∷ (Medium.cool_in, "Cooling load meter: Inlet")
    ∷ (Medium.heat_in, "Heat: Inlet")
    ∷ (Medium.heat_cool, "Heat / Cooling load meter")
    ∷ (Medium.bus, "Bus / System")
    ∷ (Medium.unknown, "Unknown Device type")
    ∷ (Medium.irrigation, "Irrigation Water")
    ∷ (Medium.water_logger, "Water Logger")
    ∷ (Medium.gas_logger, "Gas Logger")
    ∷ (Medium.gas_conv, "Gas Converter")
    ∷ (Medium.colorific, "Calorific value")
    ∷ (Medium.boil_water, "Hot water (>90°C)")
    ∷ (Medium.cold_water, "Cold water")
    ∷ (Medium.dual_water, "Dual water")
    ∷ (Medium.pressure, "Pressure")
    ∷ (Medium.adc, "A/D Converter")
    ∷ (Medium.smoke, "Smoke Detector")
    ∷ (Medium.room_sensor, "Ambient Sensor")
    ∷ (Medium.gas_detector, "Gas Detector")
    ∷ (Medium.co_alarm, "Carbon Monoxide Alarm")
    ∷ (Medium.heat_alarm, "Heat Alarm")
    ∷ (Medium.sensor, "Sensor")
    ∷ (Medium.breaker_e, "Breaker: Electricity")
    ∷ (Medium.valve, "Valve: Gas or Water")
    ∷ (Medium.customer_unit, "Customer Unit: Display Device")
    ∷ (Medium.waste_water, "Waste Water")
    ∷ (Medium.garbage, "Garbage")
    ∷ (Medium.comm_ctrl, "Communication Controller")
    ∷ (Medium.repeater_uni, "Repeater: Unidirectional")
    ∷ (Medium.repeater_bi, "Repeater: Bidirectional")
    ∷ (Medium.rc_system, "Radio Converter: System")
    ∷ (Medium.rc_meter, "Radio Converter: Meter")
    ∷ (Medium.wired_adapter, "Wired Adapter")
    ∷ []
