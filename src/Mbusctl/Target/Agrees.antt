-- ===== src/Mbusctl/Target/Agrees.antt =====
-- cmd/mbusctl/addr.go: the address checks of the tool against those of gombus.go.
use gombus.Prelude.{ℕ, ◌≡◌, ◌↔◌, arith}
use gombus.Prelude.Int.{ℤ, pos, negsuc}
use gombus.Result.{ok}
use gombus.Commands.{validate_assignable_addr, validate_destination_addr}
use gombus.Mbusctl.Target.{destination_addr, assignable_addr}

destination_pos :
    (n a : ℕ)
    → (destination_addr (pos n) ≡ ok a) ↔ ((pos n ≡ pos a) × (validate_destination_addr a ≡ ok tt))
unfolding destination_addr validate_destination_addr
destination_pos n a = (λ e. ground arith, λ e. ground arith)

assignable_pos :
    (n a : ℕ)
    → (assignable_addr (pos n) ≡ ok a) ↔ ((pos n ≡ pos a) × (validate_assignable_addr a ≡ ok tt))
unfolding assignable_addr validate_assignable_addr
assignable_pos n a = (λ e. ground arith, λ e. ground arith)

-- The tool takes an int for a destination, or for an assignable address, exactly if it is a number
-- that the validator of the library accepts, and returns this number: nothing is wrapped into a
-- byte.
pub addr-validate :
    (value : ℤ) (a : ℕ)
    → ((destination_addr value ≡ ok a) ↔ ((value ≡ pos a) × (validate_destination_addr a ≡ ok tt)))
      × ((assignable_addr value ≡ ok a) ↔ ((value ≡ pos a) × (validate_assignable_addr a ≡ ok tt)))
unfolding destination_addr assignable_addr
addr-validate (pos n) a = (destination_pos n a, assignable_pos n a)
addr-validate (negsuc n) a = ((λ e. cc, λ e. cc (e.0)), (λ e. cc, λ e. cc (e.0)))
