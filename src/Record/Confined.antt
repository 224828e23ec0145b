-- ===== src/Record/Confined.antt =====
-- decode.go: what is read inside a part of the bytes can be read of that part alone.
pub mod Value
pub mod Area
use gombus.Prelude.{
  ℕ, zero, suc, ◌+◌, ◌≤◌, ◌≡◌, refl, sym, subst, Bool, true, false, List, [], ◌∷◌, arith, ltb, ◌==◌,
  if◌then◌else◌, bit_and, length, Option, le→not_ltb, get_or, ap, ◌∙◌,
}
use gombus.Result.{
  Bytes, Error, Fault, Result, ok, err, fault, ◌>>=◌, ◌>>◌, at, at-eq_ok, slice, slice-eq_ok,
}
use gombus.Encoding.{check_kth_bit_set, decode_ascii}
use gombus.Field.{vif_without_extension}
use gombus.Record.{need, max_extensions, read_extensions_loop, read_extensions}
use gombus.Record.Decode.{extensions_of, custom_text}
use gombus.Record.Embedded.{Stays, Stays-ok, whole, need-Stays, at-Stays, slice-Stays, IsMoved}

-- A read `y` that returns a value ends at `low` or behind it. If it ends at `limit` or before, `x`
-- returns a value too, and the two are related.
pub data Confined {ℓ κ μ} {A : Type ℓ} {B : Type κ} (limit : ℕ) (R : A → B → Type μ) (low : ℕ)
    (end : A → ℕ) (x : Result A) : Result B → Type (ℓ ⊔ κ ⊔ μ) where
  reads :
      (u : A) {v : B}
      → R u v
      → low ≤ end u
      → (end u ≤ limit → x ≡ ok u)
      → Confined limit R low end x (ok v)
  errs : {e : Error} → Confined limit R low end x (err e)
  faults : {e : Fault} → Confined limit R low end x (fault e)

Confined-after {ℓ κ μ σ} :
    {A : Type ℓ} {C : Type κ} {D : Type μ} {limit low : ℕ} {S : C → D → Type σ} (end : A → ℕ)
    {stop : C → ℕ} {x : Result A} (f : A → Result C) {z : Result D} (u : A)
    → low ≤ end u
    → (end u ≤ limit → x ≡ ok u)
    → Confined limit S (end u) stop (f u) z
    → Confined limit S low stop (x >>= f) z
Confined-after end f u l k (reads w r m n) = reads w r (omega arith) λ h. rw (k (omega arith)) (n h)
Confined-after end f u l k errs = errs
Confined-after end f u l k faults = faults

pub Confined-bind {ℓ κ μ ν ρ σ} :
    {A : Type ℓ} {B : Type κ} {C : Type μ} {D : Type ν} {limit low : ℕ} {R : A → B → Type ρ}
    {S : C → D → Type σ} {end : A → ℕ} {stop : C → ℕ} {x : Result A} {y : Result B}
    {f : A → Result C} {g : B → Result D}
    → Confined limit R low end x y
    → ((u : A) (v : B) → R u v → Confined limit S (end u) stop (f u) (g v))
    → Confined limit S low stop (x >>= f) (y >>= g)
Confined-bind {end} {f} (reads u {v} r l k) next = Confined-after end f u l k (next u v r)
Confined-bind errs next = errs
Confined-bind faults next = faults

pub Confined-if {ℓ κ μ} :
    {A : Type ℓ} {B : Type κ} {limit low : ℕ} {R : A → B → Type μ} {end : A → ℕ} (t : Bool)
    {x x' : Result A} {y y' : Result B}
    → Confined limit R low end x y
    → Confined limit R low end x' y'
    → Confined limit R low end (if t then x else x') (if t then y else y')
Confined-if true p q = p
Confined-if false p q = q

-- What reads no bytes.
pub Confined-refl {ℓ} :
    {A : Type ℓ} {limit low : ℕ} {end : A → ℕ} (x : Result A)
    → ((a : A) → x ≡ ok a → low ≤ end a)
    → Confined limit ◌≡◌ low end x x
Confined-refl (ok a) h = reads a refl (h a refl) λ _. refl
Confined-refl (err e) h = errs
Confined-refl (fault e) h = faults

pub Confined-ok {ℓ} :
    {A : Type ℓ} {limit low : ℕ} {end : A → ℕ} {x y : Result A} (a : A)
    → Confined limit ◌≡◌ low end x y
    → y ≡ ok a
    → end a ≤ limit
    → x ≡ ok a
Confined-ok {limit} {end} {x} a (reads u r l k) e h =
    let f : u ≡ a = cc in
    subst (λ (c : _). x ≡ ok c) f (k (subst (λ (c : _). end c ≤ limit) (sym f) h))
Confined-ok a errs e h = cc
Confined-ok a faults e h = cc

-- A read of known length that succeeds where its bytes are there.
Confined-Stays {ℓ} :
    {A : Type ℓ} {limit low stop : ℕ} {x : Result A} (y : Result A)
    → low ≤ stop
    → Stays x y
    → (stop ≤ limit → (a : A) × (x ≡ ok a))
    → Confined limit ◌≡◌ low (λ _. stop) x y
Confined-Stays (ok b) l s k = reads b refl l λ h. (k h).1 ∙ sym (Stays-ok _ s (k h).1)
Confined-Stays (err e) l s k = errs
Confined-Stays (fault e) l s k = faults

-- The bind of two equal values.
pub Confined-then {ℓ μ ν σ} :
    {A : Type ℓ} {C : Type μ} {D : Type ν} {limit low : ℕ} {S : C → D → Type σ} {end : A → ℕ}
    {stop : C → ℕ} {x y : Result A} {f : A → Result C} {g : A → Result D}
    → Confined limit ◌≡◌ low end x y
    → ((u : A) → Confined limit S (end u) stop (f u) (g u))
    → Confined limit S low stop (x >>= f) (y >>= g)
Confined-then {limit} {S} {end} {stop} {f} {g} c next =
    Confined-bind c λ u v e. subst (λ (w : _). Confined limit S (end u) stop (f u) (g w)) e (next u)

module _ (pre bytes post : Bytes) where
  pub need-Confined :
      {low : ℕ} (i j n : ℕ)
      → j ≡ length pre + i
      → low ≤ i + n
      → Confined
          (length bytes)
          ◌≡◌
          low
          (λ _. i + n)
          (need bytes i n)
          (need (whole pre bytes post) j n)
  unfolding need
  need-Confined i j n e l =
      Confined-Stays _ l (need-Stays pre bytes post i j n e)
        λ h. (tt, rw (le→not_ltb (length bytes) (i + n) h) refl)

  pub at-Confined :
      {low : ℕ} (i j : ℕ)
      → j ≡ length pre + i
      → low ≤ i + 1
      → Confined (length bytes) ◌≡◌ low (λ _. i + 1) (at bytes i) (at (whole pre bytes post) j)
  at-Confined i j e l =
      Confined-Stays _ l (at-Stays pre bytes post i j e)
        λ h. (get_or bytes i 0, at-eq_ok bytes i (omega arith))

  pub slice-Confined :
      {low : ℕ} (i j n : ℕ)
      → j ≡ length pre + i
      → low ≤ i + n
      → Confined
          (length bytes)
          ◌≡◌
          low
          (λ _. i + n)
          (slice bytes i (i + n))
          (slice (whole pre bytes post) j (j + n))
  slice-Confined i j n e l =
      Confined-Stays _ l (slice-Stays pre bytes post i j n e)
        λ h. (_, slice-eq_ok bytes i (i + n) (omega arith) h)

  pub field-Confined {ℓ κ μ} :
      {A : Type ℓ} {B : Type κ} {R : A → B → Type μ} {stop : A → ℕ} {low : ℕ} (i j n : ℕ)
      {f : Bytes → Result A} {g : Bytes → Result B}
      → j ≡ length pre + i
      → low ≤ i + n
      → ((s : Bytes) → Confined (length bytes) R (i + n) stop (f s) (g s))
      → Confined
          (length bytes)
          R
          low
          stop
          (need bytes i n >> (slice bytes i (i + n) >>= f))
          (need (whole pre bytes post) j n >> (slice (whole pre bytes post) j (j + n) >>= g))
  field-Confined i j n e l k =
      Confined-then (need-Confined i j n e l)
        λ _. Confined-then (slice-Confined i j n e (omega arith)) k

  read_extensions_loop-Confined :
      (left i j : ℕ)
      → j ≡ length pre + i
      → Confined
          (length bytes)
          ◌≡◌
          i
          (λ s. i + length s)
          (read_extensions_loop left bytes i)
          (read_extensions_loop left (whole pre bytes post) j)
  unfolding read_extensions_loop
  read_extensions_loop-Confined zero i j e = errs
  read_extensions_loop-Confined (suc left) i j e =
      Confined-then (need-Confined i j 1 e (omega arith)) λ _.
        Confined-then (at-Confined i j e (omega arith)) λ b.
          Confined-if (check_kth_bit_set b 7)
            (Confined-then (read_extensions_loop-Confined left (i + 1) (j + 1) (omega arith))
              λ s. reads (b ∷ s) refl (omega arith) λ _. refl)
            (reads (b ∷ []) refl (omega arith) λ _. refl)

  pub extensions_of-Confined :
      (b i j : ℕ)
      → j ≡ length pre + i
      → Confined
          (length bytes)
          ◌≡◌
          i
          (λ s. i + length s)
          (extensions_of b bytes i)
          (extensions_of b (whole pre bytes post) j)
  unfolding extensions_of read_extensions
  extensions_of-Confined b i j e =
      Confined-if (check_kth_bit_set b 7) (read_extensions_loop-Confined max_extensions i j e)
        (reads [] refl (omega arith) λ _. refl)

  pub custom_text-Confined :
      (vif i j : ℕ)
      → j ≡ length pre + i
      → Confined
          (length bytes)
          (IsMoved pre bytes post)
          i
          (λ p. p.1)
          (custom_text vif bytes i)
          (custom_text vif (whole pre bytes post) j)
  unfolding custom_text
  custom_text-Confined vif i j e =
      Confined-if (bit_and vif vif_without_extension == 0x7C)
        (Confined-then (need-Confined i j 1 e (omega arith)) λ _.
          Confined-then (at-Confined i j e (omega arith)) λ size.
            field-Confined (i + 1) (j + 1) size (omega arith) (omega arith)
              λ s. reads (_, _) (refl, omega arith) (omega arith) λ _. refl)
        (reads (_, _) (refl, e) (omega arith) λ _. refl)
