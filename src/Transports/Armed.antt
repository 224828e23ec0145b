-- ===== src/Transports/Armed.antt =====
-- serial.go under read.go: what the rounds of a read arm a serial port with.
use gombus.Prelude.{ℕ, ◌-◌, ◌≤◌, ◌≡◌, refl, subst, some, arith, leb, if-holds}
use gombus.Prelude.Int.{ℤ, pos, sub_ℕ, neg}
use gombus.Result.{Result, Bytes, ok, err, fault}
use gombus.Client.Clock.{Round, read_poll_interval, armed_until}
use gombus.Transports.{
  Conn, Port, SerialDriver, clamped, serial_set_read_deadline, serial_conn, opened_port,
  dial_serial, m_bus_mode,
}

clamped-neg : (n m : ℕ) → m ≡ 0 → clamped (neg n) ≡ pos m
unfolding clamped
clamped-neg ℕ.zero m h = cc
clamped-neg (ℕ.suc n) m h = cc

-- The timeout is the time that is left, which on ℕ stops at 0.
clamped-sub_ℕ : (a b : ℕ) → clamped (sub_ℕ a b) ≡ pos (a - b)
unfolding clamped
clamped-sub_ℕ a b =
    if-holds (λ (d : ℤ). clamped d ≡ pos (a - b)) (leb b a) (λ _. refl)
      λ late. clamped-neg (b - a) (a - b) (ground arith)

armed_until-le :
    (deadline : ℕ) (r : Round) → armed_until deadline r - r.now_again ≤ read_poll_interval
unfolding armed_until
armed_until-le deadline r = ground arith

armed_until-le_deadline :
    (deadline : ℕ) (r : Round) → armed_until deadline r - r.now_again ≤ deadline - r.now_again
unfolding armed_until
armed_until-le_deadline deadline r = ground arith

-- A timeout of some milliseconds that is right for a round: no longer than the poll interval, nor
-- than what is left until the deadline.
abbrev pub Fits : ℕ → Round → ℕ → Type 0
Fits deadline r timeout = (timeout ≤ read_poll_interval) × (timeout ≤ deadline - r.now_again)

abbrev pub Arms : (D : SerialDriver) → Port D.State → Conn D.State → Type 0
Arms D port c =
    (deadline : ℕ) (r : Round) (s : D.State)
    → (timeout : ℕ) × Fits deadline r timeout
      × (c.set_read_deadline r.now_again (some (armed_until deadline r)) s
          ≡ port.set_read_timeout (pos timeout) s)

serial_conn-Arms : (D : SerialDriver) (port : Port D.State) → Arms D port (serial_conn D port)
unfolding serial_conn serial_set_read_deadline
serial_conn-Arms D port deadline r s = (
  armed_until deadline r - r.now_again,
  (armed_until-le deadline r, armed_until-le_deadline deadline r),
  subst
      (λ (d : ℤ).
        (serial_conn D port).set_read_deadline r.now_again (some (armed_until deadline r)) s
        ≡ port.set_read_timeout d s)
      (clamped-sub_ℕ (armed_until deadline r) r.now_again) refl,
)

opened_port-Arms :
    (D : SerialDriver) (p : Result (Port D.State)) (c : Conn D.State)
    → opened_port D p ≡ ok c
    → (port : Port D.State) × (p ≡ ok port) × Arms D port c
unfolding opened_port
opened_port-Arms D (ok port) c e =
    let same : serial_conn D port ≡ c = cc in
    (port, refl, subst (Arms D port) same (serial_conn-Arms D port))
opened_port-Arms D (err x) c e = cc
opened_port-Arms D (fault x) c e = cc

-- Whatever port the driver opens: at any time in a round of a read, the deadline that the round
-- sets on the connection arms the port with a timeout that is not negative, not above the poll
-- interval of 50 ms, and not above what is left until the deadline of the read.
pub dial_serial-Arms :
    (D : SerialDriver) (device : Bytes) (c : Conn D.State)
    → dial_serial D device ≡ ok c
    → (port : Port D.State) × (D.open_port device (m_bus_mode D) ≡ ok port) × Arms D port c
unfolding dial_serial
dial_serial-Arms D device c e = opened_port-Arms D (D.open_port device (m_bus_mode D)) c e
