-- ===== src/Entities/Details.antt =====
-- internal/core/entities/details: the structs Info, Player, Objective and Details, as the lists of
-- their fields with the names that `params.GetParamName` finds for them.
use swat4master.Prelude.{Option, none, some, List, [], ◌∷◌, false}
use swat4master.Prelude.Options.{◌>>=◌}
use swat4master.Prelude.Int.{pos}
use swat4master.Prelude.Bytes.{codes}
use Prim.Native.String.{String}
use swat4master.Params.{int, bool, str, Field, Struct, ParamMap, unmarshal}

abbrev int_field : String → Field
int_field name = record { param = some (codes name); value = int (pos 0) }

abbrev bool_field : String → Field
bool_field name = record { param = some (codes name); value = bool false }

abbrev str_field : String → Field
str_field name = record { param = some (codes name); value = str [] }

-- Info{}; the last field has the tag "-"
abbrev pub blank_info : Struct
blank_info =
    str_field "hostname"
    ∷ int_field "hostport"
    ∷ str_field "gamevariant"
    ∷ str_field "gamever"
    ∷ str_field "gametype"
    ∷ int_field "numplayers"
    ∷ int_field "maxplayers"
    ∷ str_field "mapname"
    ∷ bool_field "password"
    ∷ bool_field "statsenabled"
    ∷ int_field "round"
    ∷ int_field "numrounds"
    ∷ int_field "timeleft"
    ∷ int_field "timespecial"
    ∷ int_field "swatscore"
    ∷ int_field "suspectsscore"
    ∷ int_field "swatwon"
    ∷ int_field "suspectswon"
    ∷ int_field "bombsdefused"
    ∷ int_field "bombstotal"
    ∷ str_field "tocreports"
    ∷ str_field "weaponssecured"
    ∷ record { param = none; value = str [] }
    ∷ []

-- Player{}
abbrev pub blank_player : Struct
blank_player =
    str_field "player"
    ∷ int_field "score"
    ∷ int_field "ping"
    ∷ int_field "team"
    ∷ bool_field "vip"
    ∷ int_field "coopstatus"
    ∷ int_field "kills"
    ∷ int_field "tkills"
    ∷ int_field "deaths"
    ∷ int_field "arrests"
    ∷ int_field "arrested"
    ∷ int_field "vescaped"
    ∷ int_field "vipescaped"
    ∷ int_field "arrestedvip"
    ∷ int_field "unarrestedvip"
    ∷ int_field "validvipkills"
    ∷ int_field "invalidvipkills"
    ∷ int_field "bombsdiffused"
    ∷ bool_field "rdcrybaby"
    ∷ int_field "escapedcase"
    ∷ int_field "killedcase"
    ∷ bool_field "sgcrybaby"
    ∷ []

-- Objective{}
abbrev pub blank_objective : Struct
blank_objective = str_field "name" ∷ int_field "status" ∷ []

pub record Details : Type 0 where
  pub info : Struct
  pub players : List Struct
  pub objectives : List Struct

abbrev pub blank_details : Details
blank_details = record { info = blank_info; players = []; objectives = [] }

unfoldable pub new_info_from_params : ParamMap → Option Struct
new_info_from_params pms = unmarshal pms blank_info

-- one struct for each map; an error in one is an error of the whole
unfoldable pub unmarshal_all : Struct → List ParamMap → Option (List Struct)
unmarshal_all blank [] = some []
unmarshal_all blank (pms ∷ rest) = do
  one ← unmarshal pms blank
  others ← unmarshal_all blank rest
  some (one ∷ others)

unfoldable pub new_details_from_params : ParamMap → List ParamMap → List ParamMap → Option Details
unfolding unmarshal_all new_info_from_params
new_details_from_params pms players objectives = do
  players' ← unmarshal_all blank_player players
  objectives' ← unmarshal_all blank_objective objectives
  info' ← new_info_from_params pms
  some (record { info = info'; players = players'; objectives = objectives' })
