-- ===== src/Units/Codes.antt =====
-- The type codes of vif.go.
use gombus.Prelude.{ℕ, List, [], ◌∷◌}

abbrev pub vif_energy_wh : ℕ
vif_energy_wh = 0x07

abbrev pub vif_energy_joule : ℕ
vif_energy_joule = 0x0F

abbrev pub vif_volume : ℕ
vif_volume = 0x17

abbrev pub vif_mass : ℕ
vif_mass = 0x1F

abbrev pub vif_on_time : ℕ
vif_on_time = 0x23

abbrev pub vif_operating_time : ℕ
vif_operating_time = 0x27

abbrev pub vif_power_w : ℕ
vif_power_w = 0x2F

abbrev pub vif_power_joule_per_hour : ℕ
vif_power_joule_per_hour = 0x37

abbrev pub vif_volume_flow : ℕ
vif_volume_flow = 0x3F

abbrev pub vif_volume_flow_ext : ℕ
vif_volume_flow_ext = 0x47

abbrev pub vif_volume_flow_ext_small : ℕ
vif_volume_flow_ext_small = 0x4F

abbrev pub vif_mass_flow : ℕ
vif_mass_flow = 0x57

abbrev pub vif_flow_temperature : ℕ
vif_flow_temperature = 0x5B

abbrev pub vif_return_temperature : ℕ
vif_return_temperature = 0x5F

abbrev pub vif_temperature_difference : ℕ
vif_temperature_difference = 0x63

abbrev pub vif_external_temperature : ℕ
vif_external_temperature = 0x67

abbrev pub vif_pressure : ℕ
vif_pressure = 0x6B

abbrev pub vif_ext_access_number : ℕ
vif_ext_access_number = 0x108

abbrev pub vif_ext_medium : ℕ
vif_ext_medium = 0x109

abbrev pub vif_ext_manufacturer : ℕ
vif_ext_manufacturer = 0x10A

abbrev pub vif_ext_parameter_set_id : ℕ
vif_ext_parameter_set_id = 0x10B

abbrev pub vif_ext_model_version : ℕ
vif_ext_model_version = 0x10C

abbrev pub vif_ext_hardware_version : ℕ
vif_ext_hardware_version = 0x10D

abbrev pub vif_ext_firmware_version : ℕ
vif_ext_firmware_version = 0x10E

abbrev pub vif_ext_software_version : ℕ
vif_ext_software_version = 0x10F

abbrev pub vif_ext_error_flags : ℕ
vif_ext_error_flags = 0x117

abbrev pub vif_ext_error_mask : ℕ
vif_ext_error_mask = 0x118

abbrev pub vif_ext_digital_output : ℕ
vif_ext_digital_output = 0x11A

abbrev pub vif_ext_digital_input : ℕ
vif_ext_digital_input = 0x11B

abbrev pub vif_ext_baudrate : ℕ
vif_ext_baudrate = 0x11C

abbrev pub vif_ext_volts : ℕ
vif_ext_volts = 0x14F

abbrev pub vif_ext_ampere : ℕ
vif_ext_ampere = 0x15F

-- Those of the primary table, in order.
abbrev pub primary_codes : List ℕ
primary_codes =
    vif_energy_wh ∷ vif_energy_joule ∷ vif_volume ∷ vif_mass ∷ vif_on_time ∷ vif_operating_time
    ∷ vif_power_w ∷ vif_power_joule_per_hour ∷ vif_volume_flow ∷ vif_volume_flow_ext
    ∷ vif_volume_flow_ext_small ∷ vif_mass_flow ∷ vif_flow_temperature ∷ vif_return_temperature
    ∷ vif_temperature_difference ∷ vif_external_temperature ∷ vif_pressure ∷ []

-- Those of the table behind VIF FDh, in order.
abbrev pub extension_codes : List ℕ
extension_codes =
    vif_ext_access_number ∷ vif_ext_medium ∷ vif_ext_manufacturer ∷ vif_ext_parameter_set_id
    ∷ vif_ext_model_version ∷ vif_ext_hardware_version ∷ vif_ext_firmware_version
    ∷ vif_ext_software_version ∷ vif_ext_error_flags ∷ vif_ext_error_mask ∷ vif_ext_digital_output
    ∷ vif_ext_digital_input ∷ vif_ext_baudrate ∷ vif_ext_volts ∷ vif_ext_ampere ∷ []
