-- ===== src/Units/MeasureUnit.antt =====
-- unit.go: the texts of the map measureUnit.
use gombus.Prelude.{String}

abbrev pub kwh : String
kwh = "kWh"

abbrev pub wh : String
wh = "WH"

abbrev pub j : String
j = "J"

abbrev pub m3 : String
m3 = "m^3"

abbrev pub l : String
l = "l"

abbrev pub kg : String
kg = "kg"

abbrev pub w : String
w = "W"

abbrev pub j_h : String
j_h = "J/h"

abbrev pub m3_h : String
m3_h = "m^3/h"

abbrev pub m3_min : String
m3_min = "m^3/min"

abbrev pub m3_s : String
m3_s = "m^3/s"

abbrev pub kg_h : String
kg_h = "kg/h"

abbrev pub c : String
c = "C"

abbrev pub k : String
k = "K"

abbrev pub bar : String
bar = "bar"

abbrev pub date : String
date = "date"

abbrev pub time : String
time = "time"

abbrev pub date_time : String
date_time = "date time"

abbrev pub date_time_s : String
date_time_s = "date time to second"

abbrev pub seconds : String
seconds = "seconds"

abbrev pub minutes : String
minutes = "minutes"

abbrev pub hours : String
hours = "hours"

abbrev pub days : String
days = "days"

abbrev pub none : String
none = "none"

abbrev pub v : String
v = "V"

abbrev pub a : String
a = "A"

abbrev pub hca : String
hca = "H.C.A"

abbrev pub currency : String
currency = "Currency unit"

abbrev pub baud : String
baud = "Baud"

abbrev pub bit_times : String
bit_times = "Bittimes"

abbrev pub percent : String
percent = "%"

abbrev pub dbm : String
dbm = "dBm"
