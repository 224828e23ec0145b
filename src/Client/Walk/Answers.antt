-- ===== src/Client/Walk/Answers.antt =====
-- gombus.go: the frames that ReadAllFrames returns, and the requests that it sends for them.
use gombus.Prelude.{
  ℕ, zero, suc, ◌+◌, ◌≤◌, ◌≡◌, ◌⊎◌, inl, inr, refl, sym, ap, ◌∙◌, subst, Bool, true, false, not,
  ◌||◌, List, [], ◌∷◌, ◌++◌, append_assoc, append-nil, arith, length, length-append, ◌==◌,
  if◌then◌else◌,
}
use gombus.Result.{Bytes, Result, ok, err, fault, set_at, at, index_from_end, slice}
use gombus.Encoding.{calc_check_sum}
use gombus.Floats.{Floats}
use gombus.Frame.ShortFrame
use gombus.Commands.{validate_destination_addr, snd_nke}
use gombus.Response.{DecodedFrame, has_more_records}
use gombus.Client.{Client, lift, write_frame}
use gombus.Client.Fill.{read_single_char_frame}
use gombus.Client.Walk.{
  max_frames_per_read, Progress, started, read_next, read_loop, read_all_frames,
}
use gombus.Client.Walk.Requests.{
  and_then-eq-ok, wire_request, IsRound, read_next-IsRound, read_single_char_frame-Quiet,
  write_frame-sent, bytes_or_none,
}

-- Each frame but the last says that more records follow, and the last one says `more`.
unfoldable pub IsChain : {Float : Type 0} → Bool → List (DecodedFrame Float) → Type 0
IsChain more [] = more ≡ false
IsChain more (f ∷ []) = has_more_records f ≡ more
IsChain more (f ∷ g ∷ rest) = (has_more_records f ≡ true) × IsChain more (g ∷ rest)

-- The requests for `n` frames, the FCB alternating from the last one on.
unfoldable pub requests : ℕ → Bool → ℕ → List Bytes
requests primary_id last zero = []
requests primary_id last (suc n) =
    wire_request primary_id (not last) ∷ requests primary_id (not last) n

IsChain-append :
    {Float : Type 0} (frames : List (DecodedFrame Float)) (f : DecodedFrame Float) (more : Bool)
    → has_more_records f ≡ more
    → (frames ≡ []) ⊎ IsChain true frames
    → IsChain more (frames ++ (f ∷ []))
unfolding IsChain
IsChain-append [] f more h c = h
IsChain-append (g ∷ []) f more h (inl e) = cc
IsChain-append (g ∷ []) f more h (inr c) = (c, h)
IsChain-append (g ∷ k ∷ frames) f more h (inl e) = cc
IsChain-append (g ∷ k ∷ frames) f more h (inr c) =
    (c.0, IsChain-append (k ∷ frames) f more h (inr c.1))

-- What holds at the test of the loop.
record Holds {Float : Type 0} (p : Progress Float) : Type 0 where
  counted : length p.frames ≡ p.frame_count
  bounded : p.frame_count ≤ max_frames_per_read
  chained : IsChain p.more p.frames

-- What the loop adds to the frames and to what was sent.
unfoldable pub Reads :
    {Float : Type 0} → ℕ → Progress Float → Client → List (DecodedFrame Float) → Client → Type 0
Reads primary_id p c frames c' =
    (n : ℕ) × (length frames ≡ p.frame_count + n)
    × (1 ≤ length frames)
    × (length frames ≤ max_frames_per_read)
    × IsChain false frames
    × (c'.sent ≡ c.sent ++ requests primary_id p.last_fcb n)

if_cases {ℓ} :
    {A : Type ℓ} (t : Bool) {x y z : A}
    → (if t then x else y) ≡ z
    → ((t ≡ true) × (x ≡ z)) ⊎ ((t ≡ false) × (y ≡ z))
if_cases true e = inl (refl, e)
if_cases false e = inr (refl, e)

leaves : (more : Bool) (n : ℕ) → (more || n == 0) ≡ false → (more ≡ false) × (1 ≤ n)
leaves true n e = cc
leaves false n e = (refl, ground arith)

goes_on :
    {Float : Type 0} (more : Bool) (frames : List (DecodedFrame Float))
    → (more || length frames == 0) ≡ true
    → IsChain more frames
    → (frames ≡ []) ⊎ IsChain true frames
goes_on true frames e c = inr c
goes_on false [] e c = inl refl
goes_on false (f ∷ frames) e c = absurd (ground arith)

round-Holds :
    {Float : Type 0} (primary_id : ℕ) (p p' : Progress Float) (c c' : Client)
    → Holds p
    → (p.more || p.frame_count == 0) ≡ true
    → IsRound primary_id p p' c c'
    → Holds p'
round-Holds primary_id p p' c c' h t r = record {
  counted =
      ap length r.grows
      ∙ omega (arith, length-append p.frames (r.response ∷ []), h.counted, r.counted);
  bounded = omega (arith, r.within, r.counted);
  chained =
      subst (λ fs. IsChain p'.more fs) (sym r.grows)
        (IsChain-append p.frames r.response p'.more (sym r.reports)
          (goes_on p.more p.frames (ap (λ (k : ℕ). p.more || k == 0) h.counted ∙ t) h.chained));
}

abbrev frames_or_none :
    {Float : Type 0} → Result (List (DecodedFrame Float)) → List (DecodedFrame Float)
frames_or_none (ok fs) = fs
frames_or_none (err e) = []
frames_or_none (fault x) = []

-- SND_NKE on the wire.
abbrev pub wire_reset : ℕ → Bytes
wire_reset primary_id =
    0x10 ∷ 0x40 ∷ primary_id ∷ calc_check_sum (0x40 ∷ primary_id ∷ []) ∷ 0x16 ∷ []

pub snd_nke-eq : (primary_id : ℕ) → snd_nke primary_id ≡ ok (wire_reset primary_id)
unfolding snd_nke ShortFrame.set_checksum set_at at index_from_end slice
snd_nke-eq primary_id = refl

started-Holds : {Float : Type 0} → Holds (started {Float = Float})
unfolding IsChain
started-Holds = record { counted = refl; bounded = omega arith; chained = refl }

module _ (F : Floats) where
  read_loop-Reads :
      (fuel primary_id : ℕ) (p : Progress F.Float) (c c' : Client)
      (frames : List (DecodedFrame F.Float))
      → Holds p
      → read_loop F fuel primary_id p c ≡ (ok frames, c')
      → Reads primary_id p c frames c'
  unfolding read_loop Reads requests
  read_loop-Reads zero primary_id p c c' frames h e = cc
  read_loop-Reads (suc fuel) primary_id p c c' frames h e =
      elim (if_cases (p.more || p.frame_count == 0) e) [
        | inl (t, q) ↦
            let (p', d, r, rest) =
              and_then-eq-ok (read_next F primary_id p c) (read_loop F fuel primary_id) q in
            let w = read_next-IsRound F primary_id p p' c d r in
            let (n, l, o, b, ch, s) =
              read_loop-Reads fuel primary_id p' d c' frames (round-Holds primary_id p p' c d h t w)
                rest in
            (
              suc n,
              omega (arith, l, w.counted),
              o,
              b,
              ch,
              s
                  ∙ ap (λ x. x ++ requests primary_id p'.last_fcb n) w.sends
                  ∙ append_assoc c.sent (wire_request primary_id (not p.last_fcb) ∷ [])
                      (requests primary_id p'.last_fcb n)
                  ∙ ap
                      (λ (x : Bool).
                        c.sent
                        ++ (wire_request primary_id (not p.last_fcb) ∷ requests primary_id x n))
                      w.alternates,
            )
        | inr (t, q) ↦
            let (m, o) = leaves p.more p.frame_count t in
            let same : p.frames ≡ frames = ap (λ r. frames_or_none r.0) q in
            let size = ap length (sym same) ∙ h.counted in
            (
              0,
              omega (arith, size),
              omega (arith, size, o),
              omega (arith, size, h.bounded),
              subst (λ fs. IsChain false fs) same (subst (λ b. IsChain b p.frames) m h.chained),
              sym (ap (λ r. r.1.sent) q) ∙ sym (append-nil c.sent),
            )
      ]

  read_all_frames-eq-ok :
      (primary_id : ℕ) (c c' : Client) (frames : List (DecodedFrame F.Float))
      → read_all_frames F primary_id c ≡ (ok frames, c')
      → (1 ≤ length frames)
        × (length frames ≤ max_frames_per_read)
        × IsChain false frames
        × (c'.sent ≡ c.sent ++ (wire_reset primary_id ∷ requests primary_id true (length frames)))
  unfolding read_all_frames Reads
  read_all_frames-eq-ok primary_id c c' frames e =
      let (_, c1, q1, e1) = and_then-eq-ok (lift (validate_destination_addr primary_id) c) _ e in
      let (reset, c2, q2, e2) = and_then-eq-ok (lift (snd_nke primary_id) c1) _ e1 in
      let (u, c3, q3, e3) = and_then-eq-ok (write_frame reset c2) _ e2 in
      let (_, c4, q4, e4) = and_then-eq-ok (read_single_char_frame c3) _ e3 in
      let (n, l, o, b, ch, s) =
        read_loop-Reads (max_frames_per_read + 2) primary_id started c4 c' frames started-Holds
          e4 in
      let size : length frames ≡ n = omega (arith, l) in
      let framed : reset ≡ wire_reset primary_id =
        ap (λ r. bytes_or_none r.0) (sym q2) ∙ ap bytes_or_none (snd_nke-eq primary_id) in
      let before : c4.sent ≡ c.sent ++ (wire_reset primary_id ∷ []) =
        sym (ap (λ r. r.1.sent) q4)
        ∙ read_single_char_frame-Quiet c3
        ∙ write_frame-sent reset c2 c3 u q3
        ∙ ap (λ t. t ++ (reset ∷ [])) (sym (ap (λ r. r.1.sent) q2) ∙ sym (ap (λ r. r.1.sent) q1))
        ∙ ap (λ (t : Bytes). c.sent ++ (t ∷ [])) framed in
      (
        o,
        b,
        ch,
        s
            ∙ ap (λ t. t ++ requests primary_id true n) before
            ∙ append_assoc c.sent (wire_reset primary_id ∷ []) (requests primary_id true n)
            ∙ ap (λ (k : ℕ). c.sent ++ (wire_reset primary_id ∷ requests primary_id true k))
                (sym size),
      )

  -- The frames of a read that succeeds, and the requests that were sent for them.
  unfoldable pub Answers : ℕ → Client → Result (List (DecodedFrame F.Float)) × Client → Type 0
  Answers primary_id c (ok frames, c') =
      (1 ≤ length frames)
      × (length frames ≤ max_frames_per_read)
      × IsChain false frames
      × (c'.sent ≡ c.sent ++ (wire_reset primary_id ∷ requests primary_id true (length frames)))
  Answers primary_id c (err e, c') = Unit {0}
  Answers primary_id c (fault x, c') = Unit {0}

  to_Answers :
      (primary_id : ℕ) (c : Client) (p : Result (List (DecodedFrame F.Float)) × Client)
      → read_all_frames F primary_id c ≡ p
      → Answers primary_id c p
  unfolding Answers
  to_Answers primary_id c (ok frames, c') e = read_all_frames-eq-ok primary_id c c' frames e
  to_Answers primary_id c (err x, c') e = tt
  to_Answers primary_id c (fault x, c') e = tt

  -- A ReadAllFrames that succeeds returns between 1 and 64 frames, of which each but the last says
  -- that more records follow and the last one does not; it has sent a link reset, and then one
  -- request for each frame with the FCB clear first and alternating from then on.
  pub read_all_frames-Answers :
      (primary_id : ℕ) (c : Client) → Answers primary_id c (read_all_frames F primary_id c)
  read_all_frames-Answers primary_id c =
      to_Answers primary_id c (read_all_frames F primary_id c) refl
