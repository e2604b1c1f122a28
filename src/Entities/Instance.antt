-- ===== src/Entities/Instance.antt =====
-- internal/core/entities/instance
use swat4master.Prelude.{Option, none, some, [], ◌∷◌}
use swat4master.Prelude.Bytes.{Bytes}
use swat4master.Prelude.Int.{ℤ}
use swat4master.Entities.Addr.{Addr, Result, ok, err, new_addr}

-- `[4]byte`, in the form of the list of its four bytes
abbrev pub Identifier : Type 0
Identifier = Bytes

-- `none` unless there are four bytes
unfoldable pub new_id : Bytes → Option Identifier
new_id (a ∷ b ∷ c ∷ d ∷ []) = some (a ∷ b ∷ c ∷ d ∷ [])
new_id _ = none

pub record Instance : Type 0 where
  pub id : Identifier
  pub addr : Addr

abbrev pub with_id : Identifier → Result Addr → Result Instance
with_id id (ok addr) = ok (record { id = id; addr = addr })
with_id id (err e) = err e

unfoldable pub new_instance : Identifier → Bytes → ℤ → Result Instance
new_instance id ip port = with_id id (new_addr ip port)
