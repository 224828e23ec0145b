-- ===== src/Scan/Search/Bus.antt =====
-- scan.go: the search for secondary addresses on a bus of slaves.
--
-- A slave is selected by a mask that its identification number fits. Nobody answers a selection
-- that no slave fits; the one slave that fits acknowledges it; and the acknowledgements of several
-- clash into bytes that are not the one of a single acknowledgement.
pub mod Masks
pub mod Heard
pub mod Buckets
pub mod Alone
pub mod Everyone
pub mod Steps
pub mod Finds
use gombus.Prelude.{
  ℕ, zero, suc, ◌+◌, ◌-◌, ◌/◌, ◌%◌, ◌≤◌, ◌<◌, ◌≡◌, ◌≢◌, ◌⊎◌, ◌^◌, Bool, true, false, ◌&&◌, ◌||◌,
  Option, none, some, List, [], ◌∷◌, ◌++◌, ◌==◌, if◌then◌else◌, All, length, replicate, map, take,
  drop,
}
use gombus.Frame.{single_character_frame}
use gombus.Result.{Bytes, Error, ok}
use gombus.Client.{Poll, read, deadline_passed, Sending, Client}
use gombus.Read.LongFrames.{IsLongFrame}
use gombus.Scan.{SecondaryAddress, mask, mask_wildcard, secondary_from_header}
use gombus.Scan.Probe.{Selection, silence, responded, collision}
use gombus.Scan.Probe.Garbled.{sending_ok}

-- A slave, with its response to a request.
pub record Slave : Type 0 where
  pub address : SecondaryAddress
  pub response : Bytes

pub record IsSlave (s : Slave) : Type 0 where
  pub number : s.address.id < 10 ^ 8
  pub whole : IsLongFrame s.response
  pub header : secondary_from_header s.response ≡ ok s.address

-- No two slaves have one identification number.
abbrev pub Distinct : List Slave → Type 0
Distinct [] = Unit {0}
Distinct (s ∷ slaves) = All (λ (t : Slave). s.address.id ≢ t.address.id) slaves × Distinct slaves

-- The mask fits the digits of a number.
abbrev pub fits : Bytes → Bytes → Bool
fits [] [] = true
fits [] (d ∷ digits) = false
fits (m ∷ ms) [] = false
fits (m ∷ ms) (d ∷ digits) = (m == mask_wildcard || m == d) && fits ms digits

unfoldable pub selected : Bytes → List Slave → List Slave
selected m [] = []
selected m (s ∷ slaves) =
    let rest = selected m slaves in if fits m (mask s.address) then s ∷ rest else rest

-- What the selection of these slaves is to the master.
abbrev pub outcome_of : List Slave → Selection
outcome_of [] = silence
outcome_of (s ∷ []) = responded
outcome_of (s ∷ t ∷ slaves) = collision

-- Clashing acknowledgements: more than one byte, or four bytes or more that begin neither as an
-- acknowledgement nor as a long frame.
abbrev pub IsClash : Bytes → Type 0
IsClash [] = ⊥
IsClash (b ∷ more) =
    ((b ≡ single_character_frame) × (1 ≤ length more))
    ⊎ ((b ≢ single_character_frame) × (b ≢ 0x68) × (3 ≤ length more))

-- What the rounds of the master's read meet once these slaves are selected.
abbrev pub IsHeard : List Slave → List Poll → Type 0
IsHeard [] polls = polls ≡ deadline_passed ∷ []
IsHeard (s ∷ []) polls = polls ≡ read (single_character_frame ∷ []) none ∷ []
IsHeard (s ∷ t ∷ slaves) polls = (clash : Bytes) × IsClash clash × (polls ≡ read clash none ∷ [])

-- A line to the slaves, as what is heard on it after the selection by a mask.
abbrev pub IsLine : List Slave → (Bytes → List Poll) → Type 0
IsLine slaves line = (m : Bytes) → IsHeard (selected m slaves) (line m)

-- One exchange of a master with the bus.
pub data Exchange : Type 0 where
  selecting : Bytes → Exchange
  asking : Slave → Exchange

-- A mask of the digits that are fixed and `k` wildcards.
abbrev pub under : Bytes → ℕ → Bytes
under ds k = ds ++ replicate k mask_wildcard

-- The nibbles of bytes, those of the last byte first, and the nibble of a mask's digit.
abbrev pub nibbles : Bytes → Bytes
nibbles [] = []
nibbles (b ∷ rest) = nibbles rest ++ (b / 16 ∷ (b % 16 ∷ []))

abbrev pub digit_of : ℕ → ℕ
digit_of c = if c == mask_wildcard then 0x0F else c - 0x30

-- A well-formed frame that selects the slaves which a mask fits: it goes to 253, it has the digits
-- of the mask for its number, and wildcards for the manufacturer, the version and the medium.
pub record IsSelection (m frame : Bytes) : Type 0 where
  pub whole : IsLongFrame frame
  pub sized : length frame ≡ 17
  pub command : take 3 (drop 4 frame) ≡ 0x53 ∷ 0xFD ∷ 0x52 ∷ []
  pub number : nibbles (take 4 (drop 7 frame)) ≡ map digit_of m
  pub wildcards : take 4 (drop 11 frame) ≡ 0xFF ∷ 0xFF ∷ 0xFF ∷ 0xFF ∷ []

-- The frame of an exchange: the selection by its mask, or the request to 253.
abbrev pub IsPutBy : Exchange → Bytes → Type 0
IsPutBy (selecting m) frame = IsSelection m frame
IsPutBy (asking s) frame = frame ≡ 0x10 ∷ 0x5B ∷ 0xFD ∷ 0x58 ∷ 0x16 ∷ []

-- One frame for each exchange, in their order.
abbrev pub Puts : List Exchange → List Bytes → Type 0
Puts [] [] = Unit {0}
Puts [] (frame ∷ frames) = ⊥
Puts (x ∷ xs) [] = ⊥
Puts (x ∷ xs) (frame ∷ frames) = IsPutBy x frame × Puts xs frames

module _ (slaves : List Slave) where
  abbrev pub below : (Bytes → List Exchange) → Bytes → List Slave → List Exchange
  below narrow ds [] = []
  below narrow ds (s ∷ []) = asking s ∷ []
  below narrow ds (s ∷ t ∷ more) = narrow ds

  -- The `n` values from `digit` on of the digit behind `ds`, with `k` wildcards behind it.
  unfoldable pub visits_from : (Bytes → List Exchange) → ℕ → ℕ → ℕ → Bytes → List Exchange
  visits_from narrow k zero digit ds = []
  visits_from narrow k (suc n) digit ds =
      let ds' : Bytes = ds ++ (digit ∷ []) in
      (selecting (under ds' k) ∷ below narrow ds' (selected (under ds' k) slaves))
      ++ visits_from narrow k n (digit + 1) ds

  -- The exchanges that find the slaves whose numbers begin with `ds`: every value of the next digit
  -- is tried, a single slave is asked, and a clash is resolved by the digits behind.
  unfoldable pub visits : ℕ → Bytes → List Exchange
  unfolding visits_from selected
  visits zero ds = []
  visits (suc k) ds = visits_from (visits k) k 10 0x30 ds

abbrev pub reply : (Bytes → List Poll) → Exchange → List Poll
reply line (selecting m) = line m
reply line (asking s) = read s.response none ∷ []

abbrev pub replies : (Bytes → List Poll) → List Exchange → List Poll
replies line [] = []
replies line (x ∷ xs) = reply line x ++ replies line xs

-- Each exchange is one write; the context is looked at twice before a selection.
abbrev pub looks : List Exchange → List (Option Error)
looks [] = []
looks (selecting m ∷ xs) = none ∷ none ∷ looks xs
looks (asking s ∷ xs) = looks xs

abbrev pub writes : List Exchange → List Sending
writes [] = []
writes (x ∷ xs) = sending_ok ∷ writes xs

-- A client with nothing buffered, whose connection is a line with these exchanges ahead.
abbrev pub on_line : (Bytes → List Poll) → List Exchange → List Bytes → Client
on_line line xs sent = record {
  buf = [];
  polls = replies line xs;
  sendings = writes xs;
  contexts = looks xs;
  sent = sent;
}
