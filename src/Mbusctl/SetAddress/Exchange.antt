-- ===== src/Mbusctl/SetAddress/Exchange.antt =====
-- cmd/mbusctl/setaddr.go: the frames that setAddress sends.
use gombus.Prelude.{ℕ, ◌≡◌, refl, inl, inr, List, [], ◌∷◌, ◌++◌, length, take, drop}
use gombus.Result.{
  Bytes, Result, ok, err, fault, ◌>>=◌, building_frame, no_write_answer, no_reset_answer,
}
use gombus.Commands.{snd_nke, set_primary_using_primary}
use gombus.Commands.Addressing.{IsAssignable, set_primary_using_primary_lem}
use gombus.Read.LongFrames.{IsLongFrame}
use gombus.Client.{
  Client, Session, lift, and_then, pure, write_frame, ◌>>=◌ as ◌>>=ˢ◌, ◌>>◌ as ◌>>ˢ◌,
}
use gombus.Client.Fill.{read_single_char_frame}
use gombus.Client.Walk.Requests.{read_single_char_frame-Quiet}
use gombus.Client.Walk.Answers.{wire_reset, snd_nke-eq}
use gombus.Client.Sends.{Sends, quiet-Sends, and_then-Sends, lift-Sends, write_frame-Sends}
use gombus.Scan.Probe.{select_secondary}
use gombus.Scan.Probe.Quiet.{select_secondary-Sends}
use gombus.Scan.Selects.{Selects, by_number, selection_frame-Selects}
use gombus.Mbusctl.Target.{Target, secondary_target, primary_target, addr_secondary_select}
use gombus.Mbusctl.Target.RoundTrip.{IsTarget, has_number, has_address}
use gombus.Mbusctl.Bus.{note_error}
use gombus.Mbusctl.SetAddress.{note_step, link_reset, secondary_of, reach_target, set_address}

-- A well-formed long frame to `addr` that writes `new_addr`.
pub record Assigns (addr new_addr : ℕ) (frame : Bytes) : Type 0 where
  pub whole : IsLongFrame frame
  pub sized : length frame ≡ 12
  pub content : take 6 (drop 4 frame) ≡ 0x73 ∷ addr ∷ 0x51 ∷ 0x01 ∷ 0x7A ∷ new_addr ∷ []

-- The frames of an address change: the selection of the number and a write to 253, or a link reset
-- of the address and a write to it.
pub data IsExchange (new_addr : ℕ) : Target → List Bytes → Type 0 where
  by_selection :
      (id : ℕ) (select write : Bytes)
      → Selects (secondary_of id) select
      → Assigns 253 new_addr write
      → IsExchange new_addr (secondary_target id) (select ∷ write ∷ [])
  by_reset :
      (addr : ℕ) (write : Bytes)
      → Assigns addr new_addr write
      → IsExchange new_addr (primary_target addr) (wire_reset addr ∷ write ∷ [])

note_step-Sends {ℓ} :
    {A : Type ℓ} (m : gombus.Result.Message) (plan : List Bytes) (c : Client)
    (p : Result A × Client)
    → Sends plan c p
    → Sends plan c (note_step m p)
unfolding note_step note_error Sends
note_step-Sends m plan c (ok a, d) s = s
note_step-Sends m plan c (err e, d) s = s
note_step-Sends m plan c (fault x, d) s = s

acknowledged-Sends :
    (m : gombus.Result.Message) (c : Client)
    → Sends {A = Unit {0}} [] c (and_then (note_step m (read_single_char_frame c)) (λ _. pure tt))
acknowledged-Sends m c =
    and_then-Sends [] [] c (note_step m (read_single_char_frame c)) _
      (note_step-Sends m [] c (read_single_char_frame c)
        (quiet-Sends c (read_single_char_frame c) (read_single_char_frame-Quiet c)))
      λ a d _. quiet-Sends d (ok tt, d) refl

link_reset-Sends : (addr : ℕ) (c : Client) → Sends (wire_reset addr ∷ []) c (link_reset addr c)
unfolding link_reset
link_reset-Sends addr c = lift-Sends (wire_reset addr ∷ []) c (snd_nke addr) _ λ frame q.
    let same : frame ≡ wire_reset addr = cc (snd_nke-eq addr) in
    rw same (
      and_then-Sends (wire_reset addr ∷ []) [] c (write_frame (wire_reset addr) c) _
        (write_frame-Sends (wire_reset addr) c) λ u d _. acknowledged-Sends no_reset_answer d)

-- Reaching the meter sends one frame, and gives the address to write to.
write_to :
    (addr new_addr : ℕ) (first : List Bytes) (write : Bytes) (c : Client) (reach : Session ℕ)
    → set_primary_using_primary addr new_addr ≡ ok write
    → Sends first c (reach c)
    → ((a : ℕ) (d : Client) → reach c ≡ (ok a, d) → a ≡ addr)
    → Sends {A = Unit {0}} (first ++ (write ∷ [])) c (
        and_then (reach c) (λ a.
          ◌>>=ˢ◌ (lift (note_error building_frame (set_primary_using_primary a new_addr))) λ frame.
            ◌>>ˢ◌
              (write_frame frame)
              (◌>>=ˢ◌ (λ d. note_step no_write_answer (read_single_char_frame d)) λ _. pure tt)))
unfolding note_error
write_to addr new_addr first write c reach e s k =
    and_then-Sends first (write ∷ []) c (reach c) _ s λ a d q.
      rw (k a d q, e)
        (and_then-Sends (write ∷ []) [] d (write_frame write d) _ (write_frame-Sends write d)
          λ u d' _. acknowledged-Sends no_write_answer d')

selected-253 :
    (p : Result (Unit {0}) × Client) (a : ℕ) (d : Client)
    → and_then p (λ _. pure addr_secondary_select) ≡ (ok a, d)
    → a ≡ 253
selected-253 (ok u, c) a d e = cc
selected-253 (err x, c) a d e = cc
selected-253 (fault x, c) a d e = cc

reset-addr :
    (p : Result (Unit {0}) × Client) (addr a : ℕ) (d : Client)
    → and_then p (λ _. pure addr) ≡ (ok a, d)
    → a ≡ addr
reset-addr (ok u, c) addr a d e = cc
reset-addr (err x, c) addr a d e = cc
reset-addr (fault x, c) addr a d e = cc

-- For a target of the tool and an assignable new address: setting the address sends the selection
-- of the number of eight digits and a write to 253, or a link reset of the destination and a write
-- to it, each a well-formed frame with these addresses. If it succeeds it has sent both, and
-- whenever it fails it has sent a first part of them and nothing else: none, the first one, or both.
pub set_address-Sends :
    (t : Target) (new_addr : ℕ) (c : Client)
    → IsTarget t
    → IsAssignable new_addr
    → (plan : List Bytes) × IsExchange new_addr t plan × Sends plan c (set_address t new_addr c)
unfolding set_address reach_target
set_address-Sends t new_addr c (has_number id h) a =
    let (select, e, w) = selection_frame-Selects (secondary_of id) (by_number _ h refl) in
    let (write, q, l, _, n, x) = set_primary_using_primary_lem 253 new_addr [] (inr (inl refl)) a in
    (
      select ∷ write ∷ [],
      by_selection id select write w (record { whole = l; sized = n; content = x }),
      write_to 253 new_addr (select ∷ []) write c (reach_target (secondary_target id)) q
          (and_then-Sends (select ∷ []) [] c (select_secondary (secondary_of id) c) _
            (select_secondary-Sends (secondary_of id) select c e)
            λ u d _. quiet-Sends d (ok addr_secondary_select, d) refl)
          (selected-253 (select_secondary (secondary_of id) c)),
    )
set_address-Sends t new_addr c (has_address addr h) a =
    let (write, q, l, _, n, x) = set_primary_using_primary_lem addr new_addr [] h a in
    (
      wire_reset addr ∷ write ∷ [],
      by_reset addr write (record { whole = l; sized = n; content = x }),
      write_to addr new_addr (wire_reset addr ∷ []) write c (reach_target (primary_target addr)) q
          (and_then-Sends (wire_reset addr ∷ []) [] c (link_reset addr c) _
            (link_reset-Sends addr c) λ u d _. quiet-Sends d (ok addr, d) refl)
          (reset-addr (link_reset addr c) addr),
    )
