-- ===== src/Client/Sends.antt =====
-- What a session hands to the connection: the frames of a plan, and no others.
use gombus.Prelude.{
  ◌≡◌, refl, sym, ap, ◌∙◌, Bool, true, false, List, [], ◌∷◌, ◌++◌, append_assoc, append-nil,
  if◌then◌else◌,
}
use gombus.Result.{Bytes, Result, ok, err, fault}
use gombus.Client.Walk.Requests.{outcome-called}
use gombus.Client.{
  Client, Sending, Session, lift, and_then, take_sending, write_outcome, write_frame,
}

-- What was sent between two states is the first part of a plan.
pub record Begins (plan before after : List Bytes) : Type 0 where
  pub done : List Bytes
  pub left : List Bytes
  pub split : plan ≡ done ++ left
  pub grown : after ≡ before ++ done

-- A step that succeeds has sent the frames of the plan; one that fails, a first part
-- of them: none, some or all.
unfoldable pub Sends {ℓ} : {A : Type ℓ} → List Bytes → Client → Result A × Client → Type 0
Sends plan c (ok a, d) = d.sent ≡ c.sent ++ plan
Sends plan c (err e, d) = Begins plan c.sent d.sent
Sends plan c (fault x, d) = Begins plan c.sent d.sent

-- A whole plan is its own first part.
pub to_Begins {ℓ} :
    {A : Type ℓ} (plan : List Bytes) (c : Client) (p : Result A × Client)
    → Sends plan c p
    → Begins plan c.sent p.1.sent
unfolding Sends
to_Begins plan c (ok a, d) s = record {
  done = plan;
  left = [];
  split = sym (append-nil plan);
  grown = s;
}
to_Begins plan c (err e, d) s = s
to_Begins plan c (fault x, d) s = s

-- A step that sends nothing.
pub quiet-Sends {ℓ} :
    {A : Type ℓ} (c : Client) (p : Result A × Client) → p.1.sent ≡ c.sent → Sends [] c p
unfolding Sends
quiet-Sends c (ok a, d) e = e ∙ sym (append-nil c.sent)
quiet-Sends c (err x, d) e = record {
  done = [];
  left = [];
  split = refl;
  grown = e ∙ sym (append-nil c.sent);
}
quiet-Sends c (fault x, d) e = record {
  done = [];
  left = [];
  split = refl;
  grown = e ∙ sym (append-nil c.sent);
}

later-Begins :
    (first rest : List Bytes) {a b d : List Bytes}
    → b ≡ a ++ first
    → Begins rest b d
    → Begins (first ++ rest) a d
later-Begins first rest {a} {b} e g = record {
  done = first ++ g.done;
  left = g.left;
  split = ap (λ t. first ++ t) g.split ∙ sym (append_assoc first g.done g.left);
  grown = g.grown ∙ ap (λ t. t ++ g.done) e ∙ append_assoc a first g.done;
}

later-Sends {ℓ} :
    {A : Type ℓ} (first rest : List Bytes) (c d : Client) (p : Result A × Client)
    → d.sent ≡ c.sent ++ first
    → Sends rest d p
    → Sends (first ++ rest) c p
unfolding Sends
later-Sends first rest c d (ok a, d') e s =
    s ∙ ap (λ t. t ++ rest) e ∙ append_assoc c.sent first rest
later-Sends first rest c d (err x, d') e s = later-Begins first rest e s
later-Sends first rest c d (fault x, d') e s = later-Begins first rest e s

wider-Begins :
    (first rest : List Bytes) {a b : List Bytes} → Begins first a b → Begins (first ++ rest) a b
wider-Begins first rest g = record {
  done = g.done;
  left = g.left ++ rest;
  split = ap (λ t. t ++ rest) g.split ∙ append_assoc g.done g.left rest;
  grown = g.grown;
}

-- One step after the other: the plans are joined.
pub and_then-Sends {ℓ μ} :
    {A : Type ℓ} {B : Type μ} (first rest : List Bytes) (c : Client) (p : Result A × Client)
    (next : A → Session B)
    → Sends first c p
    → ((a : A) (d : Client) → p ≡ (ok a, d) → Sends rest d (next a d))
    → Sends (first ++ rest) c (and_then p next)
unfolding Sends
and_then-Sends first rest c (ok a, d) next s k =
    later-Sends first rest c d (next a d) s (k a d refl)
and_then-Sends first rest c (err e, d) next s k = wider-Begins first rest s
and_then-Sends first rest c (fault x, d) next s k = wider-Begins first rest s

-- A step that only computes.
pub lift-Sends {ℓ μ} :
    {A : Type ℓ} {B : Type μ} (rest : List Bytes) (c : Client) (r : Result A) (next : A → Session B)
    → ((a : A) → r ≡ ok a → Sends rest c (next a c))
    → Sends rest c (and_then (lift r c) next)
unfolding Sends
lift-Sends rest c (ok a) next k = k a refl
lift-Sends rest c (err e) next k = record {
  done = [];
  left = rest;
  split = refl;
  grown = sym (append-nil c.sent);
}
lift-Sends rest c (fault x) next k = record {
  done = [];
  left = rest;
  split = refl;
  grown = sym (append-nil c.sent);
}

sending-Sends :
    (frame : Bytes) (c d : Client) (r : Result (Unit {0}) × Bool)
    → ((u : Unit {0}) → r.0 ≡ ok u → r.1 ≡ true)
    → d.sent ≡ (if r.1 then c.sent ++ (frame ∷ []) else c.sent)
    → Sends (frame ∷ []) c (r.0, d)
unfolding Sends
sending-Sends frame c d (ok u, b) h e =
    e ∙ ap (λ (t : Bool). if t then c.sent ++ (frame ∷ []) else c.sent) (h u refl)
sending-Sends frame c d (err x, true) h e = record {
  done = frame ∷ [];
  left = [];
  split = refl;
  grown = e;
}
sending-Sends frame c d (err x, false) h e = record {
  done = [];
  left = frame ∷ [];
  split = refl;
  grown = e ∙ sym (append-nil c.sent);
}
sending-Sends frame c d (fault x, true) h e = record {
  done = frame ∷ [];
  left = [];
  split = refl;
  grown = e;
}
sending-Sends frame c d (fault x, false) h e = record {
  done = [];
  left = frame ∷ [];
  split = refl;
  grown = e ∙ sym (append-nil c.sent);
}

take_sending-Sends :
    (sendings : List Sending) (frame : Bytes) (c : Client)
    → Sends (frame ∷ []) c (take_sending sendings frame c)
unfolding take_sending Sends
take_sending-Sends [] frame c = record {
  done = [];
  left = frame ∷ [];
  split = refl;
  grown = sym (append-nil c.sent);
}
take_sending-Sends (s ∷ rest) frame c =
    let r = write_outcome s.context_error s.deadline_error s.write_error in
    let d : Client = record c {
      sendings = rest;
      sent = if r.1 then c.sent ++ (frame ∷ []) else c.sent;
    } in
    sending-Sends frame c d r
      (λ u h. outcome-called s.context_error s.deadline_error s.write_error u h) refl

pub write_frame-Sends : (frame : Bytes) (c : Client) → Sends (frame ∷ []) c (write_frame frame c)
unfolding write_frame
write_frame-Sends frame c = take_sending-Sends c.sendings frame c
