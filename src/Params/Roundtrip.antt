-- ===== src/Params/Roundtrip.antt =====
-- `Unmarshal` of what `Marshal` wrote gives the struct back.
use swat4master.Prelude.{
  ◌≡◌, refl, ◌∙◌, Bool, true, false, Option, none, some, [], ◌∷◌, arith, ◌&&◌, not,
}
use swat4master.Prelude.Bytes.{Bytes, beq, find, find-store, beq_self}
use swat4master.Strconv.Decimal.{InInt64, atoi-format_int}
use swat4master.Params.{
  Value, int, bool, str, Struct, ParamMap, set_struct_value, unmarshal_field, unmarshal,
  get_param_value, marshal_from, marshal, put_param,
}

abbrev pub named : Option Bytes → Bytes → Bool
named none name = false
named (some other) name = beq other name

-- no field of the struct has the name
abbrev pub fresh : Bytes → Struct → Bool
fresh name [] = true
fresh name (field ∷ rest) = not (named field.param name) && fresh name rest

abbrev pub fresh? : Option Bytes → Struct → Bool
fresh? none rest = true
fresh? (some name) rest = fresh name rest

-- no two fields have one name
abbrev pub distinct : Struct → Bool
distinct [] = true
distinct (field ∷ rest) = fresh? field.param rest && distinct rest

abbrev pub SameKind : Value → Value → Type 0
SameKind (int i) (int _) = InInt64 i
SameKind (bool _) (bool _) = Unit
SameKind (str _) (str _) = Unit
SameKind _ _ = ⊥

-- A field and its blank: the same name, and the same kind, or the same value if it has no name.
abbrev pub FieldFits : Option Bytes → Value → Value → Type 0
FieldFits none v w = v ≡ w
FieldFits (some _) v w = SameKind v w

abbrev pub Fits : Struct → Struct → Type 0
Fits [] [] = Unit
Fits (f ∷ fs) (g ∷ gs) = (f.param ≡ g.param) × FieldFits f.param f.value g.value × Fits fs gs
Fits _ _ = ⊥

-- the map has the text of every named field
abbrev Holds : ParamMap → Struct → Type 0
Holds m [] = Unit
Holds m (f ∷ fs) =
    ((name : Bytes) → f.param ≡ some name → find name m ≡ some (get_param_value f.value))
    × Holds m fs

set_struct_value-get_param_value :
    (v w : Value) → SameKind v w → set_struct_value w (get_param_value v) ≡ some v
unfolding set_struct_value get_param_value
set_struct_value-get_param_value (int i) (int j) h = rw (atoi-format_int i h)
set_struct_value-get_param_value (bool true) (bool c) h = refl
set_struct_value-get_param_value (bool false) (bool c) h = refl
set_struct_value-get_param_value (str s) (str t) h = refl
set_struct_value-get_param_value (int i) (bool c) h = absurd h
set_struct_value-get_param_value (int i) (str c) h = absurd h
set_struct_value-get_param_value (bool i) (int c) h = absurd h
set_struct_value-get_param_value (bool i) (str c) h = absurd h
set_struct_value-get_param_value (str i) (int c) h = absurd h
set_struct_value-get_param_value (str i) (bool c) h = absurd h

unmarshal_field_lem :
    (m : ParamMap) (p : Option Bytes) (v w : Value)
    → FieldFits p v w
    → ((name : Bytes) → p ≡ some name → find name m ≡ some (get_param_value v))
    → unmarshal_field m (record { param = p; value = w }) ≡ some (record { param = p; value = v })
unfolding unmarshal_field
unmarshal_field_lem m none v w fits has = rw fits
unmarshal_field_lem m (some name) v w fits has =
    rw (has name refl, unmarshal_field, set_struct_value-get_param_value v w fits)

unmarshal_of_Holds :
    (m : ParamMap) (s blank : Struct) → Fits s blank → Holds m s → unmarshal m blank ≡ some s
unfolding unmarshal
unmarshal_of_Holds m [] [] fits has = refl
unmarshal_of_Holds m [] (g ∷ gs) fits has = absurd fits
unmarshal_of_Holds m (f ∷ fs) [] fits has = absurd fits
unmarshal_of_Holds m (f ∷ fs) (g ∷ gs) fits has = rw (
  ← fits.0,
  unmarshal_field_lem m f.param f.value g.value fits.1 has.0,
  unmarshal_of_Holds m fs gs fits.2 has.1,
)

find-put_param :
    (name text : Bytes) (m : ParamMap) (p : Option Bytes)
    → named p name ≡ false
    → find name (put_param m p text) ≡ find name m
unfolding put_param
find-put_param name text m none h = refl
find-put_param name text m (some other) h = rw (find-store other name text m, h)

find-marshal_from :
    (name : Bytes) (m : ParamMap) (s : Struct)
    → fresh name s ≡ true
    → find name (marshal_from m s) ≡ find name m
unfolding marshal_from
find-marshal_from name m [] h = refl
find-marshal_from name m (f ∷ fs) h =
    let text = get_param_value f.value in
    find-marshal_from name (put_param m f.param text) fs (ground arith)
    ∙ find-put_param name text m f.param (ground arith)

find-put_param_self :
    (name text : Bytes) (m : ParamMap) (p : Option Bytes)
    → p ≡ some name
    → find name (put_param m p text) ≡ some text
unfolding put_param
find-put_param_self name text m none e = cc
find-put_param_self name text m (some other) e =
    let same : other ≡ name = cc in rw (find-store other name text m, same, beq_self name)

fresh_of_named :
    (name : Bytes) (p : Option Bytes) (rest : Struct)
    → p ≡ some name
    → fresh? p rest ≡ true
    → fresh name rest ≡ true
fresh_of_named name none rest e h = cc
fresh_of_named name (some other) rest e h = let same : other ≡ name = cc in rw same at h

Holds-marshal_from : (m : ParamMap) (s : Struct) → distinct s ≡ true → Holds (marshal_from m s) s
unfolding marshal_from
Holds-marshal_from m [] h = tt
Holds-marshal_from m (f ∷ fs) h =
    let text = get_param_value f.value in
    let later : fresh? f.param fs ≡ true = ground arith in
    (
      λ name e.
          find-marshal_from name (put_param m f.param text) fs
            (fresh_of_named name f.param fs e later)
          ∙ find-put_param_self name text m f.param e,
      Holds-marshal_from (put_param m f.param text) fs (ground arith),
    )

-- A struct with distinct names and with integers of 64 bits comes back from its parameters, into
-- any blank struct of the same names and kinds that agrees with it on the ignored fields.
pub unmarshal-marshal :
    (s blank : Struct) → Fits s blank → distinct s ≡ true → unmarshal (marshal s) blank ≡ some s
unfolding marshal
unmarshal-marshal s blank fits names =
    unmarshal_of_Holds (marshal_from [] s) s blank fits (Holds-marshal_from [] s names)
