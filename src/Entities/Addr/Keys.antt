-- ===== src/Entities/Addr/Keys.antt =====
-- That the string of an address, the key that it is stored under, is that of no other address.
use mathlib.Core.List.{append_assoc}
use swat4master.Prelude.{
  ◌≡◌, refl, sym, ap, ◌∙◌, ℕ, zero, suc, ◌+◌, ◌/◌, ◌%◌, ◌<◌, Bool, true, false, some, [], ◌∷◌, ◌++◌,
  arith, ltb, leb, ◌&&◌, Bool-cases, inl, inr,
}
use swat4master.Prelude.Int.{ℤ, pos, negsuc}
use swat4master.Prelude.Bytes.{Bytes}
use swat4master.Strconv.{read_number, format_number, print_fuel, format_int}
use swat4master.Strconv.Decimal.{read_number-format_number}
use swat4master.Entities.Addr.{Addr, get_dotted_ip, addr_string}

abbrev pub digits : Bytes → Bool
digits [] = true
digits (c ∷ cs) = leb 48 c && leb c 57 && digits cs

digits-append : (a b : Bytes) → digits a ≡ true → digits b ≡ true → digits (a ++ b) ≡ true
digits-append [] b h k = k
digits-append (c ∷ a) b h k = ground (arith, digits-append a b)

digits-print_fuel : (fuel n : ℕ) → n < fuel → digits (print_fuel fuel n) ≡ true
unfolding print_fuel
digits-print_fuel zero n h = refl
digits-print_fuel (suc fuel) n h = elim (Bool-cases (ltb n 10)) [
  | inl small ↦ rw (small, print_fuel) (ground arith)
  | inr big ↦
      rw (big, print_fuel)
        (digits-append (print_fuel fuel (n / 10)) ((48 + n % 10) ∷ [])
          (digits-print_fuel fuel (n / 10) (ground arith)) (ground arith))
]

pub digits-format_number : (n : ℕ) → digits (format_number n) ≡ true
unfolding format_number
digits-format_number n = digits-print_fuel (suc n) n (omega arith)

-- Digits before a separator are determined.
split_digits :
    (sep : ℕ) (a b x y : Bytes)
    → (leb 48 sep && leb sep 57) ≡ false
    → digits a ≡ true
    → digits b ≡ true
    → a ++ sep ∷ x ≡ b ++ sep ∷ y
    → (a ≡ b) × (x ≡ y)
split_digits sep [] [] x y s da db e = (refl, cc)
split_digits sep [] (c ∷ b) x y s da db e = let same : sep ≡ c = cc in absurd (ground arith)
split_digits sep (c ∷ a) [] x y s da db e = let same : c ≡ sep = cc in absurd (ground arith)
split_digits sep (c ∷ a) (d ∷ b) x y s da db e =
    let same : c ≡ d = cc in
    let rest : a ++ sep ∷ x ≡ b ++ sep ∷ y = cc in
    let (p, q) = split_digits sep a b x y s (ground arith) (ground arith) rest in (cc, q)

format_number-injective : (m n : ℕ) → format_number m ≡ format_number n → m ≡ n
format_number-injective m n e =
    let read : some m ≡ some n =
      sym (read_number-format_number m) ∙ ap read_number e ∙ read_number-format_number n in
    cc

-- the number before a separator, and what follows
split_number :
    (sep m n : ℕ) (x y : Bytes)
    → (leb 48 sep && leb sep 57) ≡ false
    → format_number m ++ sep ∷ x ≡ format_number n ++ sep ∷ y
    → (m ≡ n) × (x ≡ y)
split_number sep m n x y s e =
    let (a, b) =
      split_digits sep (format_number m) (format_number n) x y s (digits-format_number m)
        (digits-format_number n) e in
    (format_number-injective m n a, b)

format_int-injective : (p q : ℤ) → format_int p ≡ format_int q → p ≡ q
unfolding format_int
format_int-injective (pos m) (pos n) e = ap pos (format_number-injective m n e)
format_int-injective (pos m) (negsuc n) e =
    let there = digits-format_number m in let sign = ap digits e in absurd (ground arith)
format_int-injective (negsuc m) (pos n) e =
    let there = digits-format_number n in let sign = ap digits e in absurd (ground arith)
format_int-injective (negsuc m) (negsuc n) e =
    let rest : format_number (suc m) ≡ format_number (suc n) = cc in
    let same = format_number-injective (suc m) (suc n) rest in ap negsuc (omega arith)

-- the string, with each number before its separator
flat : Addr → Bytes
flat a =
    format_number a.ip.b0
    ++ 46
      ∷ (format_number a.ip.b1
          ++ 46 ∷ (format_number a.ip.b2 ++ 46 ∷ (format_number a.ip.b3 ++ 58 ∷ format_int a.port)))

addr_string-flat : (a : Addr) → addr_string a ≡ flat a
unfolding addr_string get_dotted_ip flat
addr_string-flat a =
    let t : Bytes = 58 ∷ format_int a.port in
    let n3 = format_number a.ip.b3 in
    let n2 = format_number a.ip.b2 in
    let n1 = format_number a.ip.b1 in
    let n0 = format_number a.ip.b0 in
    append_assoc n0 (46 ∷ (n1 ++ 46 ∷ (n2 ++ 46 ∷ n3))) t
    ∙ ap (λ l. n0 ++ 46 ∷ l)
        (append_assoc n1 (46 ∷ (n2 ++ 46 ∷ n3)) t
          ∙ ap (λ l. n1 ++ 46 ∷ l) (append_assoc n2 (46 ∷ n3) t))

abbrev address : ℕ → ℕ → ℕ → ℕ → ℤ → Addr
address b0 b1 b2 b3 port = record {
  ip = record { b0 = b0; b1 = b1; b2 = b2; b3 = b3 };
  port = port;
}

same_addr :
    {u v w x u' v' w' x' : ℕ} {p p' : ℤ}
    → u ≡ u'
    → v ≡ v'
    → w ≡ w'
    → x ≡ x'
    → p ≡ p'
    → address u v w x p ≡ address u' v' w' x' p'
same_addr f0 f1 f2 f3 f4 = cc

-- No two addresses have the same string.
pub addr_string-injective : (a b : Addr) → addr_string a ≡ addr_string b → a ≡ b
unfolding flat
addr_string-injective a b e =
    let all = sym (addr_string-flat a) ∙ e ∙ addr_string-flat b in
    let (e0, r0) = split_number 46 a.ip.b0 b.ip.b0 _ _ refl all in
    let (e1, r1) = split_number 46 a.ip.b1 b.ip.b1 _ _ refl r0 in
    let (e2, r2) = split_number 46 a.ip.b2 b.ip.b2 _ _ refl r1 in
    let (e3, r3) = split_number 58 a.ip.b3 b.ip.b3 _ _ refl r2 in
    let e4 = format_int-injective a.port b.port r3 in same_addr e0 e1 e2 e3 e4
