-- ===== src/Observers/Wrapped.antt =====
-- A sum in 64 bits is what is left of the exact sum.
use swat4master.Prelude.{◌≡◌, arith}
use swat4master.Prelude.Int.{ℤ, pos, negsuc, ◌+ℤ◌, wrap64}

pub wrap64-add : (a n : ℤ) → wrap64 (wrap64 a +ℤ n) ≡ wrap64 (a +ℤ n)
unfolding wrap64
wrap64-add (pos a) (pos n) = ground arith
wrap64-add (pos a) (negsuc n) = ground arith
wrap64-add (negsuc a) (pos n) = ground arith
wrap64-add (negsuc a) (negsuc n) = ground arith
