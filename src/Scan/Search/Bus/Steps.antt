-- ===== src/Scan/Search/Bus/Steps.antt =====
-- scan.go: what a step of the search on a line adds, and steps one behind the other.
use mathlib.Core.List.Perm
use mathlib.Core.List.{Perm, map-append}
use gombus.Prelude.{◌≡◌, sym, ap, ◌∙◌, subst, List, [], ◌∷◌, ◌++◌, append_assoc, append-nil, map}
use gombus.Result.{Bytes, Result, ok}
use gombus.Client.{Client, Session, Poll, and_then}
use gombus.Scan.{SecondaryAddress}
use gombus.Scan.Search.{Search}
use gombus.Scan.Search.Bus.{Slave, Exchange, IsPutBy, Puts, on_line}

abbrev pub addresses : List Slave → List SecondaryAddress
addresses slaves = map (λ (s : Slave). s.address) slaves

-- The frames of exchanges, one behind the other.
Puts-append :
    (xs ys : List Exchange) (frames others : List Bytes)
    → Puts xs frames
    → Puts ys others
    → Puts (xs ++ ys) (frames ++ others)
Puts-append [] ys [] others p q = q
Puts-append [] ys (f ∷ frames) others p q = absurd p
Puts-append (x ∷ xs) ys [] others p q = absurd p
Puts-append (x ∷ xs) ys (f ∷ frames) others p q = (p.0, Puts-append xs ys frames others p.1 q)

-- A step of the search that leaves the mask `m`, adds the addresses of these slaves in some order,
-- puts a frame on the line behind `sent` for each of the exchanges `xs`, and uses these up in front
-- of `w`.
pub record Adds (line : Bytes → List Poll) (m : Bytes) (acc : List SecondaryAddress)
    (slaves : List Slave) (xs w : List Exchange) (sent : List Bytes) (p : Result Search × Client)
    : Type 0 where
  pub found : List SecondaryAddress
  pub same : Perm found (addresses slaves)
  pub frames : List Bytes
  pub puts : Puts xs frames
  pub met : p ≡ (ok (m, acc ++ found), on_line line w (sent ++ frames))

pub Adds-eq :
    (line : Bytes → List Poll) (m : Bytes) (acc : List SecondaryAddress) (slaves : List Slave)
    (xs w : List Exchange) (sent : List Bytes) {p q : Result Search × Client}
    → p ≡ q
    → Adds line m acc slaves xs w sent q
    → Adds line m acc slaves xs w sent p
Adds-eq line m acc slaves xs w sent e a = record {
  found = a.found;
  same = a.same;
  frames = a.frames;
  puts = a.puts;
  met = e ∙ a.met;
}

-- A step that adds nothing.
pub none-Adds :
    (line : Bytes → List Poll) (m : Bytes) (acc : List SecondaryAddress) (w : List Exchange)
    (sent : List Bytes)
    → Adds line m acc [] [] w sent (ok (m, acc), on_line line w sent)
none-Adds line m acc w sent = record {
  found = [];
  same = Perm.refl [];
  frames = [];
  puts = tt;
  met =
      ap (λ (found : List SecondaryAddress). (ok (m, found), on_line line w sent))
        (sym (append-nil acc))
      ∙ ap (λ (t : List Bytes). (ok (m, acc ++ []), on_line line w t)) (sym (append-nil sent));
}

-- A step behind an exchange that has put its frame on the line.
pub behind-Adds :
    (line : Bytes → List Poll) (m : Bytes) (acc : List SecondaryAddress) (slaves : List Slave)
    (x : Exchange) (xs w : List Exchange) (sent : List Bytes) (frame : Bytes)
    (p : Result Search × Client)
    → IsPutBy x frame
    → Adds line m acc slaves xs w (sent ++ (frame ∷ [])) p
    → Adds line m acc slaves (x ∷ xs) w sent p
behind-Adds line m acc slaves x xs w sent frame p put a = record {
  found = a.found;
  same = a.same;
  frames = frame ∷ a.frames;
  puts = (put, a.puts);
  met =
      a.met
      ∙ ap (λ (t : List Bytes). (ok (m, acc ++ a.found), on_line line w t))
          (append_assoc sent (frame ∷ []) a.frames);
}

-- A step, and the one behind it.
pub and_then-Adds :
    (line : Bytes → List Poll) (m n : Bytes) (acc : List SecondaryAddress) (ts us : List Slave)
    (xs ys v w : List Exchange) (sent : List Bytes) (p : Result Search × Client)
    (next : Search → Session Search) (a : Adds line m acc ts xs v sent p)
    → Adds line n
        (acc ++ a.found)
        us
        ys
        w
        (sent ++ a.frames)
        (next (m, acc ++ a.found) (on_line line v (sent ++ a.frames)))
    → Adds line n acc (ts ++ us) (xs ++ ys) w sent (and_then p next)
and_then-Adds line m n acc ts us xs ys v w sent p next a b = record {
  found = a.found ++ b.found;
  same =
      subst (λ ss. Perm (a.found ++ b.found) ss) (sym (map-append (λ (s : Slave). s.address) ts us))
        (Perm.append a.same b.same);
  frames = a.frames ++ b.frames;
  puts = Puts-append xs ys a.frames b.frames a.puts b.puts;
  met =
      ap (λ (q : Result Search × Client). and_then q next) a.met
      ∙ b.met
      ∙ ap
          (λ (found : List SecondaryAddress).
            (ok (n, found), on_line line w ((sent ++ a.frames) ++ b.frames)))
          (append_assoc acc a.found b.found)
      ∙ ap (λ (t : List Bytes). (ok (n, acc ++ (a.found ++ b.found)), on_line line w t))
          (append_assoc sent a.frames b.frames);
}
