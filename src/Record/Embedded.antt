-- ===== src/Record/Embedded.antt =====
-- decode.go: what is read of bytes is read of them inside longer bytes too.
pub mod Value
pub mod Area
use gombus.Prelude.{
  ℕ, zero, suc, ◌+◌, ◌-◌, ◌≤◌, ◌<◌, ◌⊎◌, inl, inr, ◌≡◌, refl, subst, sym, ap, ◌∙◌, Bool, true,
  false, List, [], ◌∷◌, ◌++◌, arith, ltb, leb, ◌==◌, if◌then◌else◌, bit_and, length, take, drop,
  get_or, length-append, take-append, drop-append, drop_prefix, get_or-append, Option, none, some,
  ltb→lt, leb→le, ◌&&◌, length-drop, get_or_prefix, Bool-cases,
}
use gombus.Result.{
  Bytes, Error, Fault, Result, ok, err, fault, ◌>>=◌, ◌>>◌, refuse, at, at-eq_ok, slice,
  slice-eq_ok, sentinel, short_data_record,
}
use gombus.Encoding.{check_kth_bit_set, decode_ascii}
use gombus.Field.{vif_without_extension}
use gombus.Record.{need, max_extensions, read_extensions_loop, read_extensions}
use gombus.Record.Decode.{extensions_of, custom_text}

-- If the first result is a value, the second is one too, and the two are related.
pub data Follows {ℓ κ μ} {A : Type ℓ} {B : Type κ} (R : A → B → Type μ)
    : Result A → Result B → Type (ℓ ⊔ κ ⊔ μ) where
  agrees : {a : A} {b : B} → R a b → Follows R (ok a) (ok b)
  errs : {e : Error} {y : Result B} → Follows R (err e) y
  faults : {x : Fault} {y : Result B} → Follows R (fault x) y

-- The second result is the first one, if that is a value.
abbrev pub Stays {ℓ} : {A : Type ℓ} → Result A → Result A → Type ℓ
Stays x y = Follows ◌≡◌ x y

pub Follows-bind {ℓ κ μ ν ρ σ} :
    {A : Type ℓ} {B : Type κ} {C : Type μ} {D : Type ν} {R : A → B → Type ρ} {S : C → D → Type σ}
    {x : Result A} {y : Result B} {f : A → Result C} {g : B → Result D}
    → Follows R x y
    → ((a : A) (b : B) → R a b → Follows S (f a) (g b))
    → Follows S (x >>= f) (y >>= g)
Follows-bind (agrees {a} {b} r) k = k a b r
Follows-bind errs k = errs
Follows-bind faults k = faults

pub Stays-bind {ℓ κ μ σ} :
    {A : Type ℓ} {C : Type κ} {D : Type μ} {S : C → D → Type σ} {x y : Result A} {f : A → Result C}
    {g : A → Result D}
    → Stays x y
    → ((a : A) → Follows S (f a) (g a))
    → Follows S (x >>= f) (y >>= g)
Stays-bind {S} {f} {g} s k = Follows-bind s λ a b e. subst (λ c. Follows S (f a) (g c)) e (k a)

pub Stays-refl {ℓ} : {A : Type ℓ} (x : Result A) → Stays x x
Stays-refl (ok a) = agrees refl
Stays-refl (err e) = errs
Stays-refl (fault x) = faults

pub Stays-ok {ℓ} : {A : Type ℓ} {x y : Result A} (a : A) → Stays x y → x ≡ ok a → y ≡ ok a
Stays-ok a (agrees r) e = cc
Stays-ok a errs e = cc
Stays-ok a faults e = cc

pub Follows-if {ℓ κ μ} :
    {A : Type ℓ} {B : Type κ} {R : A → B → Type μ} (t : Bool) {x x' : Result A} {y y' : Result B}
    → Follows R x y
    → Follows R x' y'
    → Follows R (if t then x else x') (if t then y else y')
Follows-if true p q = p
Follows-if false p q = q

-- Bytes, with others before and behind them: index `i` of the bytes is index `length pre + i`.
module _ (pre bytes post : Bytes) where
  abbrev pub whole : Bytes
  whole = pre ++ (bytes ++ post)

  length-whole : length whole ≡ length pre + length bytes + length post
  length-whole = omega (arith, length-append {0} pre (bytes ++ post), length-append {0} bytes post)

  drop-whole : (i : ℕ) → i ≤ length bytes → drop (length pre + i) whole ≡ drop i bytes ++ post
  drop-whole i h =
      drop_prefix {0} (length pre) i pre (bytes ++ post) refl ∙ drop-append {0} i bytes post h

  get_or-whole : (i : ℕ) → i < length bytes → get_or whole (length pre + i) 0 ≡ get_or bytes i 0
  get_or-whole i h = get_or_prefix {0} pre (bytes ++ post) i 0 ∙ get_or-append {0} bytes post i 0 h

  take_field-whole :
      (i n : ℕ)
      → i + n ≤ length bytes
      → take (length pre + i + n - (length pre + i)) (drop (length pre + i) whole)
        ≡ take (i + n - i) (drop i bytes)
  take_field-whole i n h =
      let a : length pre + i + n - (length pre + i) ≡ n = omega arith in
      let b : i + n - i ≡ n = omega arith in
      rw (a, b, drop-whole i (omega arith))
        (take-append {0} n (drop i bytes) post (omega (arith, length-drop {0} i bytes)))

  need-shifted : (i n : ℕ) → Stays (need bytes i n) (need whole (length pre + i) n)
  unfolding need
  need-shifted i n = elim (Bool-cases (ltb (length bytes) (i + n))) [
    | inl e ↦ rw e errs
    | inr e ↦
        (let k : ltb (length whole) (length pre + i + n) ≡ false = ground (arith, length-whole) in
          rw (e, k) (agrees refl))
  ]

  at-shifted : (i : ℕ) → Stays (at bytes i) (at whole (length pre + i))
  unfolding at
  at-shifted i = elim (Bool-cases (ltb i (length bytes))) [
    | inr e ↦ rw e faults
    | inl e ↦
        (let k : ltb (length pre + i) (length whole) ≡ true = ground (arith, length-whole) in
          rw (e, k) (agrees (sym (get_or-whole i (ltb→lt _ _ e)))))
  ]

  slice-shifted :
      (i n : ℕ) → Stays (slice bytes i (i + n)) (slice whole (length pre + i) (length pre + i + n))
  unfolding slice
  slice-shifted i n = elim (Bool-cases (leb (i + n) (length bytes))) [
    | inr e ↦
        (let k : (leb i (i + n) && leb (i + n) (length bytes)) ≡ false = ground arith in
          rw k faults)
    | inl e ↦
        (let k : i + n ≤ length bytes = leb→le _ _ e in
          let l : length pre + i + n ≤ length whole = omega (arith, length-whole) in
          rw (slice-eq_ok bytes i (i + n) (omega arith) k) (
            rw (slice-eq_ok whole (length pre + i) (length pre + i + n) (omega arith) l)
              (agrees (sym (take_field-whole i n k)))))
  ]

  -- The index of the second read is given by an equation.
  pub need-Stays : (i j n : ℕ) → j ≡ length pre + i → Stays (need bytes i n) (need whole j n)
  need-Stays i j n e = rw e (need-shifted i n)

  pub at-Stays : (i j : ℕ) → j ≡ length pre + i → Stays (at bytes i) (at whole j)
  at-Stays i j e = rw e (at-shifted i)

  pub slice-Stays :
      (i j n : ℕ) → j ≡ length pre + i → Stays (slice bytes i (i + n)) (slice whole j (j + n))
  slice-Stays i j n e = rw e (slice-shifted i n)

  -- A checked slice of `n` bytes.
  pub field-Stays {ℓ κ μ} :
      {A : Type ℓ} {B : Type κ} {R : A → B → Type μ} (i j n : ℕ) {f : Bytes → Result A}
      {g : Bytes → Result B}
      → j ≡ length pre + i
      → ((s : Bytes) → Follows R (f s) (g s))
      → Follows R
          (need bytes i n >> (slice bytes i (i + n) >>= f))
          (need whole j n >> (slice whole j (j + n) >>= g))
  field-Stays i j n e k = Stays-bind (need-Stays i j n e) λ _. Stays-bind (slice-Stays i j n e) k

  read_extensions_loop-Stays :
      (left i j : ℕ)
      → j ≡ length pre + i
      → Stays (read_extensions_loop left bytes i) (read_extensions_loop left whole j)
  unfolding read_extensions_loop
  read_extensions_loop-Stays zero i j e = errs
  read_extensions_loop-Stays (suc left) i j e = Stays-bind (need-Stays i j 1 e) λ _.
      Stays-bind (at-Stays i j e) λ b.
        Follows-if (check_kth_bit_set b 7)
          (Stays-bind (read_extensions_loop-Stays left (i + 1) (j + 1) (omega arith))
            λ s. agrees refl)
          (agrees refl)

  pub extensions_of-Stays :
      (b i j : ℕ) → j ≡ length pre + i → Stays (extensions_of b bytes i) (extensions_of b whole j)
  unfolding extensions_of read_extensions
  extensions_of-Stays b i j e =
      Follows-if (check_kth_bit_set b 7) (read_extensions_loop-Stays max_extensions i j e)
        (agrees refl)

  -- The text is the same, and the index behind it is as much further.
  abbrev pub IsMoved : Option Bytes × ℕ → Option Bytes × ℕ → Type 0
  IsMoved a b = (a.0 ≡ b.0) × (b.1 ≡ length pre + a.1)

  pub custom_text-Moved :
      (vif i j : ℕ)
      → j ≡ length pre + i
      → Follows IsMoved (custom_text vif bytes i) (custom_text vif whole j)
  unfolding custom_text
  custom_text-Moved vif i j e =
      Follows-if (bit_and vif vif_without_extension == 0x7C)
        (Stays-bind (need-Stays i j 1 e) λ _.
          Stays-bind (at-Stays i j e)
            λ size. field-Stays (i + 1) (j + 1) size (omega arith) λ s. agrees (refl, omega arith))
        (agrees (refl, e))
