-- ===== src/Field/Medium.antt =====
-- constants.go: the medium codes of a variable data response.
use gombus.Prelude.{ℕ}

abbrev pub other : ℕ
other = 0x00

abbrev pub oil : ℕ
oil = 0x01

abbrev pub electricity : ℕ
electricity = 0x02

abbrev pub gas : ℕ
gas = 0x03

abbrev pub heat_out : ℕ
heat_out = 0x04

abbrev pub steam : ℕ
steam = 0x05

abbrev pub hot_water : ℕ
hot_water = 0x06

abbrev pub water : ℕ
water = 0x07

abbrev pub heat_cost : ℕ
heat_cost = 0x08

abbrev pub compr_air : ℕ
compr_air = 0x09

abbrev pub cool_out : ℕ
cool_out = 0x0A

abbrev pub cool_in : ℕ
cool_in = 0x0B

abbrev pub heat_in : ℕ
heat_in = 0x0C

abbrev pub heat_cool : ℕ
heat_cool = 0x0D

abbrev pub bus : ℕ
bus = 0x0E

abbrev pub unknown : ℕ
unknown = 0x0F

abbrev pub irrigation : ℕ
irrigation = 0x10

abbrev pub water_logger : ℕ
water_logger = 0x11

abbrev pub gas_logger : ℕ
gas_logger = 0x12

abbrev pub gas_conv : ℕ
gas_conv = 0x13

abbrev pub colorific : ℕ
colorific = 0x14

abbrev pub boil_water : ℕ
boil_water = 0x15

abbrev pub cold_water : ℕ
cold_water = 0x16

abbrev pub dual_water : ℕ
dual_water = 0x17

abbrev pub pressure : ℕ
pressure = 0x18

abbrev pub adc : ℕ
adc = 0x19

abbrev pub smoke : ℕ
smoke = 0x1A

abbrev pub room_sensor : ℕ
room_sensor = 0x1B

abbrev pub gas_detector : ℕ
gas_detector = 0x1C

abbrev pub co_alarm : ℕ
co_alarm = 0x1D

abbrev pub heat_alarm : ℕ
heat_alarm = 0x1E

abbrev pub sensor : ℕ
sensor = 0x1F

abbrev pub breaker_e : ℕ
breaker_e = 0x20

abbrev pub valve : ℕ
valve = 0x21

abbrev pub customer_unit : ℕ
customer_unit = 0x25

abbrev pub waste_water : ℕ
waste_water = 0x28

abbrev pub garbage : ℕ
garbage = 0x29

abbrev pub comm_ctrl : ℕ
comm_ctrl = 0x31

abbrev pub repeater_uni : ℕ
repeater_uni = 0x32

abbrev pub repeater_bi : ℕ
repeater_bi = 0x33

abbrev pub rc_system : ℕ
rc_system = 0x36

abbrev pub rc_meter : ℕ
rc_meter = 0x37

abbrev pub wired_adapter : ℕ
wired_adapter = 0x38
