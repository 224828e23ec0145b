-- ===== src/Transports.antt =====
-- conn.go, serial.go and tcp.go: the interface of a transport, and its two implementations.
--
-- A method is a function from the state of the transport to its answer and the state after it. A
-- time and a duration are numbers of milliseconds, and the zero time is `none`; a method that reads
-- the clock takes it as its first argument. go.bug.st/serial and package net are the records
-- `SerialDriver` and `Dialer`.
pub mod Armed
use gombus.Prelude.{ℕ, Option, none, some}
use gombus.Prelude.Int.{ℤ, pos, negsuc, sub_ℕ}
use gombus.Units.{codes}
use gombus.Result.{Bytes, Error, Result, ok, err, fault, noted, failed_to_dial}

-- The type Conn; it is also the part of a net.Conn that the package uses. `read` takes the number
-- of bytes there is room for.
pub record Conn (S : Type 0) : Type 0 where
  pub read : ℕ → S → (Bytes × Option Error) × S
  pub write : Bytes → S → (ℕ × Option Error) × S
  pub set_read_deadline : ℕ → Option ℕ → S → Option Error × S
  pub set_write_deadline : ℕ → Option ℕ → S → Option Error × S
  pub close : S → Option Error × S

-- A serial.Mode.
pub record Mode (Parity : Type 0) (StopBits : Type 0) : Type 0 where
  pub baud_rate : ℕ
  pub data_bits : ℕ
  pub parity : Parity
  pub stop_bits : StopBits

-- A serial.Port; a timeout is a time.Duration.
pub record Port (S : Type 0) : Type 0 where
  pub read : ℕ → S → (Bytes × Option Error) × S
  pub write : Bytes → S → (ℕ × Option Error) × S
  pub set_read_timeout : ℤ → S → Option Error × S
  pub close : S → Option Error × S

-- Package go.bug.st/serial.
pub record SerialDriver : Type 1 where
  pub State : Type 0
  pub Parity : Type 0
  pub StopBits : Type 0
  pub even_parity : Parity
  pub one_stop_bit : StopBits
  pub no_timeout : ℤ
  pub open_port : Bytes → Mode Parity StopBits → Result (Port State)

-- `if timeout < 0 { timeout = 0 }`
unfoldable pub clamped : ℤ → ℤ
clamped (pos n) = pos n
clamped (negsuc n) = pos 0

unfoldable pub serial_set_read_deadline :
    (D : SerialDriver) → Port D.State → ℕ → Option ℕ → D.State → Option Error × D.State
unfolding clamped
serial_set_read_deadline D port now none s = port.set_read_timeout D.no_timeout s
serial_set_read_deadline D port now (some t) s = port.set_read_timeout (clamped (sub_ℕ t now)) s

-- The methods of serialConn.
unfoldable pub serial_conn : (D : SerialDriver) → Port D.State → Conn D.State
unfolding serial_set_read_deadline
serial_conn D port = record {
  read = λ size s. port.read size s;
  write = λ b s. port.write b s;
  set_read_deadline = λ now t s. serial_set_read_deadline D port now t s;
  set_write_deadline = λ now t s. (none, s);
  close = λ s. port.close s;
}

abbrev pub m_bus_mode : (D : SerialDriver) → Mode D.Parity D.StopBits
m_bus_mode D = record {
  baud_rate = 2400;
  data_bits = 8;
  parity = D.even_parity;
  stop_bits = D.one_stop_bit;
}

unfoldable pub opened_port : (D : SerialDriver) → Result (Port D.State) → Result (Conn D.State)
unfolding serial_conn
opened_port D (ok port) = ok (serial_conn D port)
opened_port D (err e) = err e
opened_port D (fault x) = fault x

unfoldable pub dial_serial : (D : SerialDriver) → Bytes → Result (Conn D.State)
unfolding opened_port
dial_serial D device = opened_port D (D.open_port device (m_bus_mode D))

-- A net.Dialer: `dial_context` takes the timeout of its context, the network and the address.
pub record Dialer (S : Type 0) : Type 0 where
  pub dial_context : ℕ → Bytes → Bytes → Result (Conn S)

-- The methods of conn.
unfoldable pub tcp_conn : {S : Type 0} → Conn S → Conn S
tcp_conn c = record {
  read = λ size s. c.read size s;
  write = λ b s. c.write b s;
  set_read_deadline = λ now t s. c.set_read_deadline now t s;
  set_write_deadline = λ now t s. c.set_write_deadline now t s;
  close = λ s. c.close s;
}

unfoldable pub dialled : {S : Type 0} → Result (Conn S) → Result (Conn S)
unfolding tcp_conn
dialled (ok c) = ok (tcp_conn c)
dialled (err e) = err (noted failed_to_dial e)
dialled (fault x) = fault x

unfoldable pub dial_tcp : {S : Type 0} → Dialer S → Bytes → Result (Conn S)
unfolding dialled
dial_tcp d addr = dialled (d.dial_context 1000 (codes "tcp") addr)
