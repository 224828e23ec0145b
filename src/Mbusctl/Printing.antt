-- ===== src/Mbusctl/Printing.antt =====
-- cmd/mbusctl/main.go: a printer stops at the first write that fails.
use gombus.Prelude.{
  ℕ, suc, ◌+◌, ◌<◌, ◌≡◌, inl, inr, refl, sym, ap, ◌∙◌, Option, none, some, List, [], ◌∷◌, ◌++◌,
  append_assoc, append-nil, arith, length, length-append, Option-cases,
}
use gombus.Result.{Bytes, Error}
use gombus.Mbusctl.{Writer, Printer, new_printer, write, print_after, printf, print_all}

-- None of the next `n` writes of a writer fails.
abbrev pub Works : Writer → ℕ → Type 0
Works w n = (k : ℕ) → k < n → w.error_at (length w.written + k) ≡ none

-- What printing texts does to a writer: all of them are written, or those up to the first one
-- whose write fails, and the printer has the error of that write.
pub data Prints (w : Writer) (texts : List Bytes) (p : Printer) : Type 0 where
  prints_all :
      p.error ≡ none
      → p.out.written ≡ w.written ++ texts
      → Works w (length texts)
      → Prints w texts p
  stops :
      (before : List Bytes) (text : Bytes) (behind : List Bytes) (e : Error)
      → texts ≡ before ++ (text ∷ behind)
      → p.out.written ≡ w.written ++ (before ++ (text ∷ []))
      → Works w (length before)
      → w.error_at (length w.written + length before) ≡ some e
      → p.error ≡ some e
      → Prints w texts p

print_after-stopped :
    (o : Option Error) (text : Bytes) (e : Error) (p : Printer)
    → o ≡ some e
    → print_after o text p ≡ p
unfolding print_after
print_after-stopped none text e p h = cc
print_after-stopped (some x) text e p h = refl

-- A printer with an error prints nothing.
print_all-stopped :
    (texts : List Bytes) (e : Error) (p : Printer) → p.error ≡ some e → print_all texts p ≡ p
unfolding print_all printf print_after
print_all-stopped [] e p h = refl
print_all-stopped (text ∷ rest) e p h =
    ap (print_all rest) (print_after-stopped p.error text e p h) ∙ print_all-stopped rest e p h

abbrev printed : Bytes → Writer → Printer
printed text w = record {
  out = record w { written = w.written ++ (text ∷ []) };
  error = w.error_at (length w.written);
}

printf-new : (text : Bytes) (w : Writer) → printf text (new_printer w) ≡ printed text w
unfolding printf print_after write
printf-new text w = refl

-- A writer after one more text.
abbrev behind_text : Bytes → Writer → Writer
behind_text text w = record w { written = w.written ++ (text ∷ []) }

later-Works :
    (w : Writer) (text : Bytes) (n : ℕ)
    → w.error_at (length w.written) ≡ none
    → Works (behind_text text w) n
    → Works w (suc n)
later-Works w text n fine h ℕ.zero l = ap w.error_at (omega arith) ∙ fine
later-Works w text n fine h (suc k) l =
    ap w.error_at (omega (arith, length-append w.written (text ∷ []))) ∙ h k (omega arith)

later-Prints :
    (w : Writer) (text : Bytes) (rest : List Bytes) (p : Printer)
    → w.error_at (length w.written) ≡ none
    → Prints (behind_text text w) rest p
    → Prints w (text ∷ rest) p
later-Prints w text rest p fine (prints_all n a f) =
    prints_all n (a ∙ append_assoc w.written (text ∷ []) rest)
      (later-Works w text (length rest) fine f)
later-Prints w text rest p fine (stops before t behind e q a f h n) =
    stops (text ∷ before) t behind e (ap (λ ts. text ∷ ts) q)
      (a ∙ append_assoc w.written (text ∷ []) (before ++ (t ∷ [])))
      (later-Works w text (length before) fine f)
      (ap w.error_at (omega (arith, length-append w.written (text ∷ []))) ∙ h) n

-- A printer that has met this error so far.
abbrev printer_with : Writer → Option Error → Printer
printer_with w e = record { out = w; error = e }

-- Printing texts writes all of them and reports no error, or it writes those up to the first one
-- whose write fails, and reports the error of that write.
pub print_all-Prints :
    (texts : List Bytes) (w : Writer) → Prints w texts (print_all texts (new_printer w))
unfolding print_all
print_all-Prints [] w = prints_all refl (sym (append-nil w.written)) (λ k h. absurd (omega arith))
print_all-Prints (text ∷ rest) w = elim (Option-cases (w.error_at (length w.written))) [
  | inl fine ↦
      let w' = behind_text text w in
      let next : printf text (new_printer w) ≡ new_printer w' =
        printf-new text w ∙ ap (printer_with w') fine in
      rw next (later-Prints w text rest _ fine (print_all-Prints rest w'))
  | inr (e, failed) ↦
      rw (printf-new text w, print_all-stopped rest e (printed text w) failed)
        (stops [] text rest e refl refl (λ k h. absurd (omega arith))
          (ap w.error_at (omega arith) ∙ failed) failed)
]
