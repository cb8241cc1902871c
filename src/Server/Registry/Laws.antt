-- ===== src/Server/Registry/Laws.antt =====
-- The arity check, and its limit.
use shrikedb.Prelude.{
  ℕ, suc, ◌≤◌, ◌<◌, ◌≡◌, ◌≢◌, Bool, true, false, arith, leb, ◌==◌, if◌then◌else◌,
}
use shrikedb.Prelude.Int.{ℤ, pos, negsuc}
use shrikedb.Server.Registry.{arity_fits}

abbrev pub wanted : ℤ → ℕ → Bool
wanted (pos a) n = if a == 0 then true else n == a
wanted (negsuc a) n = leb (suc a) n

-- Up to 32767 arguments the check is the documented one: a positive arity is the exact number of
-- arguments, a negative one the least number.
pub arity_fits_lem : (arity : ℤ) (n : ℕ) → n < 32768 → arity_fits arity n ≡ wanted arity n
unfolding arity_fits
arity_fits_lem (pos a) n h = ground arith
arity_fits_lem (negsuc a) n h = ground arith

-- From 32768 to 65535 arguments the count wraps to a negative number, and every command with an
-- arity is refused.
pub arity_fits-wrapped :
    (arity : ℤ) (n : ℕ) → arity ≢ pos 0 → 32768 ≤ n → n < 65536 → arity_fits arity n ≡ false
unfolding arity_fits
arity_fits-wrapped (pos a) n given h k = ground arith
arity_fits-wrapped (negsuc a) n given h k = ground arith
