-- ===== src/Units/VifUnit.antt =====
-- unit.go: the codes of the map vifUnit, by the constants of vif.go where it names them.
use gombus.Prelude.{ℕ}
use gombus.Units.Codes.{
  vif_energy_wh, vif_energy_joule, vif_volume, vif_mass, vif_on_time, vif_operating_time,
  vif_power_w, vif_power_joule_per_hour, vif_volume_flow, vif_volume_flow_ext,
  vif_volume_flow_ext_small, vif_mass_flow, vif_flow_temperature, vif_return_temperature,
  vif_temperature_difference, vif_external_temperature, vif_pressure,
}

abbrev pub energy_wh : ℕ
energy_wh = vif_energy_wh

abbrev pub energy_j : ℕ
energy_j = vif_energy_joule

abbrev pub volume : ℕ
volume = vif_volume

abbrev pub mass : ℕ
mass = vif_mass

abbrev pub on_time : ℕ
on_time = vif_on_time

abbrev pub operating_time : ℕ
operating_time = vif_operating_time

abbrev pub power_w : ℕ
power_w = vif_power_w

abbrev pub power_j_h : ℕ
power_j_h = vif_power_joule_per_hour

abbrev pub volume_flow : ℕ
volume_flow = vif_volume_flow

abbrev pub volume_flow_ext : ℕ
volume_flow_ext = vif_volume_flow_ext

abbrev pub volume_flow_ext_s : ℕ
volume_flow_ext_s = vif_volume_flow_ext_small

abbrev pub mass_flow : ℕ
mass_flow = vif_mass_flow

abbrev pub flow_temperature : ℕ
flow_temperature = vif_flow_temperature

abbrev pub return_temperature : ℕ
return_temperature = vif_return_temperature

abbrev pub temperature_difference : ℕ
temperature_difference = vif_temperature_difference

abbrev pub external_temperature : ℕ
external_temperature = vif_external_temperature

abbrev pub pressure : ℕ
pressure = vif_pressure

abbrev pub date : ℕ
date = 0x6C

abbrev pub date_time_general : ℕ
date_time_general = 0x6D

abbrev pub date_time : ℕ
date_time = 0x6D

abbrev pub extented_time : ℕ
extented_time = 0x6D

abbrev pub extented_date_time : ℕ
extented_date_time = 0x6D

abbrev pub units_for_hca : ℕ
units_for_hca = 0x6E

abbrev pub res_third_vife_table : ℕ
res_third_vife_table = 0x6F

abbrev pub avg_duration : ℕ
avg_duration = 0x73

abbrev pub actuality_duration : ℕ
actuality_duration = 0x77

abbrev pub fabrication_no : ℕ
fabrication_no = 0x78

abbrev pub identification : ℕ
identification = 0x79

abbrev pub address : ℕ
address = 0x7A

abbrev pub first_ext_vif_codes : ℕ
first_ext_vif_codes = 0xFB

abbrev pub variable_vif : ℕ
variable_vif = 0xFC

abbrev pub vif_following : ℕ
vif_following = 0x7C

abbrev pub second_ext_vif_codes : ℕ
second_ext_vif_codes = 0xFD

abbrev pub third_ext_vif_codes_res : ℕ
third_ext_vif_codes_res = 0xEF

abbrev pub any_vif : ℕ
any_vif = 0x7E

abbrev pub manufacturer_spec : ℕ
manufacturer_spec = 0x7F
