-- ===== src/Units/VifUnitExt.antt =====
-- unit.go: the codes of the maps vifUnitExt and vifUnitSecExt.
use gombus.Prelude.{ℕ}

abbrev pub currency_credit : ℕ
currency_credit = 0x103

abbrev pub currency_debit : ℕ
currency_debit = 0x107

abbrev pub access_number : ℕ
access_number = 0x108

abbrev pub medium : ℕ
medium = 0x109

abbrev pub manufacturer : ℕ
manufacturer = 0x10A

abbrev pub parameter_set_id : ℕ
parameter_set_id = 0x10B

abbrev pub model_version : ℕ
model_version = 0x10C

abbrev pub hardware_version : ℕ
hardware_version = 0x10D

abbrev pub firmware_version : ℕ
firmware_version = 0x10E

abbrev pub software_version : ℕ
software_version = 0x10F

abbrev pub customer_location : ℕ
customer_location = 0x110

abbrev pub customer : ℕ
customer = 0x111

abbrev pub access_code_user : ℕ
access_code_user = 0x112

abbrev pub access_code_operator : ℕ
access_code_operator = 0x113

abbrev pub access_code_system_operator : ℕ
access_code_system_operator = 0x114

abbrev pub access_code_developer : ℕ
access_code_developer = 0x115

abbrev pub password : ℕ
password = 0x116

abbrev pub error_flags : ℕ
error_flags = 0x117

abbrev pub error_masks : ℕ
error_masks = 0x118

abbrev pub reserved : ℕ
reserved = 0x119

abbrev pub digital_output : ℕ
digital_output = 0x11A

abbrev pub digital_input : ℕ
digital_input = 0x11B

abbrev pub baudrate : ℕ
baudrate = 0x11C

abbrev pub response_delay : ℕ
response_delay = 0x11D

abbrev pub retry : ℕ
retry = 0x11E

abbrev pub reserved_2 : ℕ
reserved_2 = 0x11F

abbrev pub first_storage_nr : ℕ
first_storage_nr = 0x120

abbrev pub last_storage_nr : ℕ
last_storage_nr = 0x121

abbrev pub size_of_storage_block : ℕ
size_of_storage_block = 0x122

abbrev pub reserved_3 : ℕ
reserved_3 = 0x123

abbrev pub storage_interval : ℕ
storage_interval = 0x127

abbrev pub storage_interval_month : ℕ
storage_interval_month = 0x128

abbrev pub storage_interval_years : ℕ
storage_interval_years = 0x129

abbrev pub duration_since_last_readout : ℕ
duration_since_last_readout = 0x12F

abbrev pub start_of_tariff : ℕ
start_of_tariff = 0x130

abbrev pub duration_of_tariff : ℕ
duration_of_tariff = 0x133

abbrev pub period_of_tariff : ℕ
period_of_tariff = 0x137

abbrev pub period_of_tariff_month : ℕ
period_of_tariff_month = 0x138

abbrev pub period_of_tariff_years : ℕ
period_of_tariff_years = 0x139

abbrev pub dimensionless : ℕ
dimensionless = 0x13A

abbrev pub volts : ℕ
volts = 0x14F

abbrev pub ampere : ℕ
ampere = 0x15F

abbrev pub reset_counter : ℕ
reset_counter = 0x160

abbrev pub cumulation_counter : ℕ
cumulation_counter = 0x161

abbrev pub control_signal : ℕ
control_signal = 0x162

abbrev pub day_of_week : ℕ
day_of_week = 0x163

abbrev pub week_number : ℕ
week_number = 0x164

abbrev pub time_point_of_day_change : ℕ
time_point_of_day_change = 0x165

abbrev pub state_of_parameter_activation : ℕ
state_of_parameter_activation = 0x166

abbrev pub special_supplier_information : ℕ
special_supplier_information = 0x167

abbrev pub duration_since_last_cumulation : ℕ
duration_since_last_cumulation = 0x16B

abbrev pub operating_time_battery : ℕ
operating_time_battery = 0x16F

abbrev pub dateand_time_of_battery_change : ℕ
dateand_time_of_battery_change = 0x170

abbrev pub rssi : ℕ
rssi = 0x171

abbrev pub relative_humidity : ℕ
relative_humidity = 0x21A
