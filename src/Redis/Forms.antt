-- ===== src/Redis/Forms.antt =====
-- A concrete encoding of servers, which satisfies what is asked of encoding/json.
use swat4master.Prelude.{
  ◌≡◌, refl, ap, ◌∙◌, ℕ, zero, suc, true, false, Option, none, some, List, [], ◌∷◌, length,
}
use swat4master.Prelude.Bytes.{Bytes}
use swat4master.Prelude.Int.{ℤ, pos, negsuc}
use swat4master.Redis.{Codec}
use swat4master.Params.{Value, int, bool, str, Field, Struct}
use swat4master.Entities.Addr.{Addr}
use swat4master.Entities.Details.{Details}
use swat4master.Entities.Server.{Server}

-- A prefix form: what `put` writes before a rest, `take` finds again.
pub record Form (A : Type 0) : Type 0 where
  pub put : A → Bytes → Bytes
  pub take : Bytes → Option (A × Bytes)
  pub take-put : (a : A) (rest : Bytes) → take (put a rest) ≡ some (a, rest)

module _ {A B : Type 0} where
  abbrev pub then_take : Option (A × Bytes) → (A → Bytes → Option (B × Bytes)) → Option (B × Bytes)
  then_take none f = none
  then_take (some (a, rest)) f = f a rest

abbrev pub take_number : Bytes → Option (ℕ × Bytes)
take_number [] = none
take_number (n ∷ rest) = some (n, rest)

abbrev pub number : Form ℕ
number = record { put = λ n rest. n ∷ rest; take = take_number; take-put = λ a rest. refl }

module _ {A B : Type 0} where
  -- the same form of a type that goes into this one and back
  abbrev pub through : (f : A → B) (g : B → A) → ((a : A) → g (f a) ≡ a) → Form B → Form A
  through f g back form = record {
    put = λ a rest. form.put (f a) rest;
    take = λ bytes. then_take (form.take bytes) (λ b rest. some (g b, rest));
    take-put = λ a rest.
        ap (λ r. then_take r (λ b rest'. some (g b, rest'))) (form.take-put (f a) rest)
        ∙ ap (λ a'. some (a', rest)) (back a);
  }

  abbrev pub both : Form A → Form B → Form (A × B)
  both first second = record {
    put = λ p rest. first.put p.0 (second.put p.1 rest);
    take = λ bytes.
        then_take (first.take bytes)
          (λ a rest. then_take (second.take rest) (λ b rest'. some ((a, b), rest')));
    take-put = λ p rest.
        ap
          (λ r.
            then_take r
              (λ a rest'. then_take (second.take rest') (λ b rest''. some ((a, b), rest''))))
          (first.take-put p.0 (second.put p.1 rest))
        ∙ ap (λ r. then_take r (λ b rest'. some ((p.0, b), rest'))) (second.take-put p.1 rest);
  }

module _ {A : Type 0} (form : Form A) where
  abbrev put_all : List A → Bytes → Bytes
  put_all [] rest = rest
  put_all (x ∷ xs) rest = form.put x (put_all xs rest)

  abbrev take_all : ℕ → Bytes → Option (List A × Bytes)
  take_all zero bytes = some ([], bytes)
  take_all (suc n) bytes =
      then_take (form.take bytes)
        (λ x rest. then_take (take_all n rest) (λ xs rest'. some (x ∷ xs, rest')))

  pub take_all-put_all :
      (xs : List A) (rest : Bytes) → take_all (length xs) (put_all xs rest) ≡ some (xs, rest)
  take_all-put_all [] rest = refl
  take_all-put_all (x ∷ xs) rest =
      ap
        (λ r.
          then_take r
            (λ y bytes. then_take (take_all (length xs) bytes) (λ ys rest'. some (y ∷ ys, rest'))))
        (form.take-put x (put_all xs rest))
      ∙ ap (λ r. then_take r (λ ys rest'. some (x ∷ ys, rest'))) (take_all-put_all xs rest)

  abbrev take_list : Bytes → Option (List A × Bytes)
  take_list [] = none
  take_list (n ∷ rest) = take_all n rest

  abbrev list_of : Form (List A)
  list_of = record {
    put = λ xs rest. length xs ∷ put_all xs rest;
    take = take_list;
    take-put = take_all-put_all;
  }

module _ {A : Type 0} where
  abbrev to_list : Option A → List A
  to_list none = []
  to_list (some a) = a ∷ []

  abbrev first : List A → Option A
  first [] = none
  first (a ∷ _) = some a

  abbrev optional : Form A → Form (Option A)
  optional form = through to_list first back (list_of form)
    where
      back : (a : Option A) → first (to_list a) ≡ a
      back none = refl
      back (some a) = refl

abbrev pub from_integer : ℤ → ℕ × ℕ
from_integer (pos n) = (0, n)
from_integer (negsuc n) = (1, n)

abbrev pub to_integer : ℕ × ℕ → ℤ
to_integer (zero, n) = pos n
to_integer (suc _, n) = negsuc n

pub to_integer-from_integer : (i : ℤ) → to_integer (from_integer i) ≡ i
to_integer-from_integer (pos n) = refl
to_integer-from_integer (negsuc n) = refl

abbrev pub integer : Form ℤ
integer = through from_integer to_integer to_integer-from_integer (both number number)

abbrev from_value : Value → ℕ × (ℤ × Bytes)
from_value (int i) = (0, (i, []))
from_value (bool false) = (1, (pos 0, []))
from_value (bool true) = (2, (pos 0, []))
from_value (str s) = (3, (pos 0, s))

abbrev to_value : ℕ × (ℤ × Bytes) → Value
to_value (zero, (i, s)) = int i
to_value (suc zero, (i, s)) = bool false
to_value (suc (suc zero), (i, s)) = bool true
to_value (suc (suc (suc _)), (i, s)) = str s

pub to_value-from_value : (v : Value) → to_value (from_value v) ≡ v
to_value-from_value (int i) = refl
to_value-from_value (bool false) = refl
to_value-from_value (bool true) = refl
to_value-from_value (str s) = refl

abbrev pub text : Form Bytes
text = list_of number

abbrev value_form : Form Value
value_form = through from_value to_value to_value-from_value (both number (both integer text))

abbrev struct_form : Form Struct
struct_form = list_of (
    through (λ (f : Field). (f.param, f.value)) (λ p. record { param = p.0; value = p.1 })
      (λ f. refl) (both (optional text) value_form))

abbrev details_form : Form Details
details_form =
    through (λ (d : Details). (d.info, (d.players, d.objectives)))
      (λ p. record { info = p.0; players = p.1.0; objectives = p.1.1 }) (λ d. refl)
      (both struct_form (both (list_of struct_form) (list_of struct_form)))

abbrev pub addr_form : Form Addr
addr_form =
    through (λ (a : Addr). ((a.ip.b0, a.ip.b1), ((a.ip.b2, a.ip.b3), a.port)))
      (λ p. record {
        ip = record { b0 = p.0.0; b1 = p.0.1; b2 = p.1.0.0; b3 = p.1.0.1 };
        port = p.1.1;
      })
      (λ a. refl) (both (both number number) (both (both number number) integer))

abbrev server_form : Form Server
server_form =
    through
      (λ (s : Server). (
        (s.addr, s.query_port),
        ((s.discovery_status, s.info), (s.details, (s.refreshed_at, s.version))),
      ))
      (λ p. record {
        addr = p.0.0;
        query_port = p.0.1;
        discovery_status = p.1.0.0;
        info = p.1.0.1;
        details = p.1.1.0;
        refreshed_at = p.1.1.1.0;
        version = p.1.1.1.1;
      })
      (λ s. refl)
      (both (both addr_form integer)
        (both (both number struct_form) (both details_form (both number number))))

abbrev pub value_of {ℓ} : {A : Type ℓ} → Option (A × Bytes) → Option A
value_of none = none
value_of (some (a, rest)) = some a

abbrev pub codec_of : {A : Type 0} → Form A → Codec A
codec_of form = record {
  encode = λ a. form.put a [];
  decode = λ bytes. value_of (form.take bytes);
  decode-encode = λ a. ap value_of (form.take-put a []);
}

abbrev pub server_codec : Codec Server
server_codec = codec_of server_form
