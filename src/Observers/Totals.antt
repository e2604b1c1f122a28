-- ===== src/Observers/Totals.antt =====
-- What the servers of one game type come to: the exact sums, and what 64 bits keep of them.
use swat4master.Prelude.{
  ◌≡◌, refl, ap, ◌∙◌, Bool, true, false, Option, none, some, List, [], ◌∷◌, if◌then◌else◌,
}
use swat4master.Prelude.Int.{wrap64, ◌+ℤ◌, ℤ, pos, ltℤ}
use swat4master.Prelude.Bytes.{Bytes, codes, beq}
use swat4master.Entities.Server.{Server}
use swat4master.Observers.Wrapped.{wrap64-add}
use swat4master.Params.{Value, int, bool, str}
use swat4master.Browsing.Filter.{get_struct_field}
use swat4master.Observers.{text_of, number_of, or_zero, add_int}

-- the text and the number that a field of a server holds
abbrev pub text_in : Option Value → Bytes
text_in none = []
text_in (some (str s)) = s
text_in (some (int i)) = []
text_in (some (bool b)) = []

abbrev pub number_in : Option Value → ℤ
number_in none = pos 0
number_in (some (int i)) = i
number_in (some (str s)) = pos 0
number_in (some (bool b)) = pos 0

pub text_of-eq : (o : Option Value) → text_of o ≡ text_in o
text_of-eq none = refl
text_of-eq (some (str s)) = refl
text_of-eq (some (int i)) = refl
text_of-eq (some (bool b)) = refl

pub number_of-eq : (o : Option Value) → number_of o ≡ number_in o
number_of-eq none = refl
number_of-eq (some (str s)) = refl
number_of-eq (some (int i)) = refl
number_of-eq (some (bool b)) = refl

abbrev pub type_in : Server → Bytes
type_in svr = text_in (get_struct_field svr.info (codes "gametype"))

abbrev pub players_in : Server → ℤ
players_in svr = number_in (get_struct_field svr.info (codes "numplayers"))

abbrev pub plus : Option ℤ → Option ℤ → Option ℤ
plus acc none = acc
plus acc (some n) = some (add_int (or_zero acc) n)

-- the exact sum
abbrev pub add_up : Option ℤ → Option ℤ → Option ℤ
add_up acc none = acc
add_up acc (some n) = some (or_zero acc +ℤ n)

-- what 64 bits keep of it
abbrev pub wrapped : Option ℤ → Option ℤ
wrapped none = none
wrapped (some n) = some (wrap64 n)

plus-wrapped : (acc x : Option ℤ) → plus (wrapped acc) x ≡ wrapped (add_up acc x)
plus-wrapped acc none = refl
plus-wrapped none (some n) = refl
plus-wrapped (some a) (some n) = ap (λ m. some m) (wrap64-add a n)

pub counted-wrapped :
    (b : Bool) (f acc x : Option ℤ)
    → f ≡ wrapped acc
    → (if b then plus f x else f) ≡ wrapped (if b then add_up acc x else acc)
counted-wrapped true f acc x e = ap (λ o. plus o x) e ∙ plus-wrapped acc x
counted-wrapped false f acc x e = e

-- what the servers of one game type come to, with the amount of each; none if no server has one
abbrev pub total : (Server → Option ℤ) → Bytes → Option ℤ → List Server → Option ℤ
total amount t acc [] = acc
total amount t acc (svr ∷ servers) =
    total amount t (if beq (type_in svr) t then add_up acc (amount svr) else acc) servers

abbrev pub each : Server → Option ℤ
each svr = some (pos 1)

abbrev pub some_players : ℤ → Option ℤ
some_players n = if ltℤ (pos 0) n then some n else none

abbrev pub one_played : ℤ → Option ℤ
one_played n = if ltℤ (pos 0) n then some (pos 1) else none

abbrev pub its_players : Server → Option ℤ
its_players svr = some_players (players_in svr)

abbrev pub if_played : Server → Option ℤ
if_played svr = one_played (players_in svr)
