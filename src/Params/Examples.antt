-- ===== src/Params/Examples.antt =====
-- A player's struct, written and read.
use swat4master.Prelude.{◌≡◌, refl, some, [], ◌∷◌, true, false, arith}
use swat4master.Prelude.Int.{pos}
use swat4master.Prelude.Bytes.{codes}
use swat4master.Params.{Struct, int, bool, str, unmarshal, marshal}
use swat4master.Params.Roundtrip.{unmarshal-marshal}

abbrev blank_entry : Struct
blank_entry =
    record { param = some (codes "player"); value = str [] }
    ∷ record { param = some (codes "score"); value = int (pos 0) }
    ∷ record { param = some (codes "vip"); value = bool false }
    ∷ []

abbrev entry : Struct
entry =
    record { param = some (codes "player"); value = str (codes "Serge") }
    ∷ record { param = some (codes "score"); value = int (pos 12) }
    ∷ record { param = some (codes "vip"); value = bool true }
    ∷ []

unmarshal-marshal_example : unmarshal (marshal entry) blank_entry ≡ some entry
unmarshal-marshal_example =
    unmarshal-marshal entry blank_entry (refl, tt, (refl, omega arith, (refl, tt, tt))) refl
