-- ===== src/Mbusctl/ReadCommand/Fits.antt =====
-- cmd/mbusctl/read.go: how many frames a read returns, and printing them.
use gombus.Prelude.{
  ℕ, ◌≤◌, Bool, true, false, List, [], ◌∷◌, arith, length, if-holds, if◌then◌else◌,
}
use gombus.Result.{Result, ok, err, fault}
use gombus.Response.{DecodedFrame}
use gombus.Client.{Client, Session, and_then, pure}
use gombus.Client.Walk.{read_all_frames}
use gombus.Client.Walk.Answers.{Answers, read_all_frames-Answers}
use gombus.Scan.Probe.{select_secondary, read_by_secondary}
use gombus.Mbusctl.Target.{Target, addr_secondary_select}
use gombus.Mbusctl.Bus.{Environment}
use gombus.Mbusctl.SetAddress.{secondary_of}
use gombus.Mbusctl.ReadCommand.{read_once, read_from, read_frames}

-- One frame, or with -all one frame or more.
unfoldable pub Fits : {A : Type 0} → Bool → Result (List A) × Client → Type 0
Fits all (ok frames, c) = (1 ≤ length frames) × (length frames ≤ (if all then 64 else 1))
Fits all (err e, c) = Unit {0}
Fits all (fault x, c) = Unit {0}

one-Fits :
    {A : Type 0} (p : Result A × Client) → Fits false (and_then p (λ frame. pure (frame ∷ [])))
unfolding Fits
one-Fits (ok a, c) = omega arith
one-Fits (err e, c) = tt
one-Fits (fault x, c) = tt

later-Fits :
    {A B : Type 0} (all : Bool) (p : Result B × Client) (next : B → Session (List A))
    → ((b : B) (c : Client) → Fits all (next b c))
    → Fits all (and_then p next)
unfolding Fits
later-Fits all (ok b, c) next h = h b c
later-Fits all (err e, c) next h = tt
later-Fits all (fault x, c) next h = tt

module _ (env : Environment) where
  Answers-Fits :
      (addr : ℕ) (c : Client) (p : Result (List (DecodedFrame env.floats.Float)) × Client)
      → Answers env.floats addr c p
      → Fits true p
  unfolding Answers Fits
  Answers-Fits addr c (ok frames, d) a = (a.0, a.1)
  Answers-Fits addr c (err e, d) a = tt
  Answers-Fits addr c (fault x, d) a = tt

  read_from-Fits : (all : Bool) (addr : ℕ) (c : Client) → Fits all (read_from env all addr c)
  unfolding read_from
  read_from-Fits true addr c =
      Answers-Fits addr c (read_all_frames env.floats addr c)
        (read_all_frames-Answers env.floats addr c)
  read_from-Fits false addr c = one-Fits (read_once env addr c)

  pub read_frames-Fits : (t : Target) (all : Bool) (c : Client) → Fits all (read_frames env t all c)
  unfolding read_frames
  read_frames-Fits t true c =
      if-holds (λ (s : Session (List (DecodedFrame env.floats.Float))). Fits true (s c)) t.secondary
        (λ _.
          later-Fits true (select_secondary (secondary_of t.id) c) _
            λ u d. read_from-Fits true addr_secondary_select d)
        λ _. read_from-Fits true t.primary c
  read_frames-Fits t false c =
      if-holds (λ (s : Session (List (DecodedFrame env.floats.Float))). Fits false (s c))
        t.secondary (λ _. one-Fits (read_by_secondary env.floats (secondary_of t.id) c))
        λ _. read_from-Fits false t.primary c
