-- ===== src/Core/Entry/OrderId/Uniqueness.antt =====
-- Two plans share a client order id only if they are the same attempt for the same trade, as far as
-- the id names the trade.
use Prim.Native.Nat.add
use native.Mathlib.Nat.{pow-succ', pow-zero, div-div-eq-div-mul}
use safe_signal_trader_v.Prelude.{
  ℕ, zero, suc, ◌+◌, ◌-◌, ◌*◌, ◌/◌, ◌%◌, ◌^◌, ◌≤◌, ◌<◌, true, false, ◌≡◌, refl, sym, ap, ◌∙◌, List,
  [], ◌∷◌, ◌++◌, ltb, if◌then◌else◌, arith, length, Bool-cases, inl, inr, length-append, ◌↔◌,
}
use safe_signal_trader_v.Domain.Models.{Uuid}
use safe_signal_trader_v.Core.Entry.OrderId.{
  take, hex_digit, hex_digits, decimal_from, decimal, client_order_id,
}

-- Reading digits back, most significant first.
module _ (base : ℕ) (digit : ℕ → ℕ) where
  read_from : ℕ → List ℕ → ℕ
  read_from acc [] = acc
  read_from acc (c ∷ cs) = read_from (acc * base + digit c) cs

  read_from-snoc :
      (acc c : ℕ) (cs : List ℕ) → read_from acc (cs ++ c ∷ []) ≡ read_from acc cs * base + digit c
  unfolding read_from
  read_from-snoc acc c [] = refl
  read_from-snoc acc c (d ∷ cs) = read_from-snoc (acc * base + digit d) c cs

abbrev decimal_digit : ℕ → ℕ
decimal_digit c = c - b'0'

abbrev hex_value : ℕ → ℕ
hex_value c = if ltb c 58 then c - b'0' else c - 87

hex_value-hex_digit : (d : ℕ) → d < 16 → hex_value (hex_digit d) ≡ d
unfolding hex_digit
hex_value-hex_digit d h = ground arith

decimal_from-small : (f n : ℕ) → ltb n 10 ≡ true → decimal_from (suc f) n ≡ (b'0' + n) ∷ []
unfolding decimal_from
decimal_from-small f n h = ground arith

decimal_from-large :
    (f n : ℕ)
    → ltb n 10 ≡ false
    → decimal_from (suc f) n ≡ decimal_from f (n / 10) ++ ((b'0' + n % 10) ∷ [])
unfolding decimal_from
decimal_from-large f n h = ground arith

read-decimal_from : (f n : ℕ) → n ≤ f → read_from 10 decimal_digit 0 (decimal_from f n) ≡ n
read-decimal_from zero n h = unfold decimal_from read_from in omega arith
read-decimal_from (suc f) n h = elim (Bool-cases (ltb n 10)) [
  | inl small ↦ rw (decimal_from-small f n small) (unfold read_from in omega arith)
  | inr large ↦
      rw (decimal_from-large f n large, read_from-snoc, read-decimal_from f (n / 10) (ground arith))
        (omega arith)
]

read-hex_digits : (n x : ℕ) → x < 16 ^ n → read_from 16 hex_value 0 (hex_digits n x) ≡ x
unfolding hex_digits
read-hex_digits zero x h = unfold read_from in omega arith
read-hex_digits (suc n) x h =
    let fits : x / 16 < 16 ^ n = omega (arith, pow-succ' 16 n) in
    let last : hex_value (hex_digit (x % 16)) ≡ x % 16 =
      hex_value-hex_digit (x % 16) (omega arith) in
    read_from-snoc 16 hex_value 0 _ (hex_digits n (x / 16))
    ∙ rw (read-hex_digits n (x / 16) fits, last) (omega arith)

length-hex_digits : (n x : ℕ) → length (hex_digits n x) ≡ n
unfolding hex_digits
length-hex_digits zero x = refl
length-hex_digits (suc n) x = rw (length-append, length-hex_digits n (x / 16)) (omega arith)

length-decimal_from : (k f n : ℕ) → n < 10 ^ suc k → length (decimal_from f n) ≤ suc k
unfolding decimal_from
length-decimal_from k zero n h = omega arith
length-decimal_from zero (suc f) n h = ground arith
length-decimal_from (suc k) (suc f) n h = ground (
  arith,
  pow-succ' 10 (suc k),
  length-decimal_from k f (n / 10),
  length-append {0} (decimal_from f (n / 10)) ((b'0' + n % 10) ∷ []),
)

take-all : (n : ℕ) (xs : List ℕ) → length xs ≤ n → take n xs ≡ xs
unfolding take
take-all zero [] h = refl
take-all zero (x ∷ xs) h = absurd (omega arith)
take-all (suc n) [] h = refl
take-all (suc n) (x ∷ xs) h = ap (λ (t : List ℕ). x ∷ t) (take-all n xs (omega arith))

take-append : (n : ℕ) (xs ys : List ℕ) → n ≤ length xs → take n (xs ++ ys) ≡ take n xs
unfolding take
take-append zero xs ys h = refl
take-append (suc n) [] ys h = absurd (omega arith)
take-append (suc n) (x ∷ xs) ys h = ap (λ (t : List ℕ). x ∷ t) (take-append n xs ys (omega arith))

drop : ℕ → List ℕ → List ℕ
drop zero xs = xs
drop (suc n) [] = []
drop (suc n) (x ∷ xs) = drop n xs

drop-append : (n : ℕ) (xs ys : List ℕ) → length xs ≡ n → drop n (xs ++ ys) ≡ ys
unfolding drop
drop-append zero [] ys h = refl
drop-append zero (x ∷ xs) ys h = absurd (omega arith)
drop-append (suc n) [] ys h = absurd (omega arith)
drop-append (suc n) (x ∷ xs) ys h = drop-append n xs ys (omega arith)

take-hex_digits_snoc :
    (m n x : ℕ) → m ≤ n → take m (hex_digits (suc n) x) ≡ take m (hex_digits n (x / 16))
unfolding hex_digits
take-hex_digits_snoc m n x h =
    take-append m (hex_digits n (x / 16)) _ (omega (arith, length-hex_digits n (x / 16)))

-- the first `m` of `m + n` digits are those of the high part
take-hex_digits : (m n x : ℕ) → take m (hex_digits (n + m) x) ≡ hex_digits m (x / 16 ^ n)
take-hex_digits m zero x =
    rw (add.zero, take-all m (hex_digits m x) (omega (arith, length-hex_digits m x)))
      (ap (hex_digits m) (omega (arith, pow-zero 16)))
take-hex_digits m (suc n) x = rw add.suc (
    take-hex_digits_snoc m (n + m) x (omega arith)
    ∙ take-hex_digits m n (x / 16)
    ∙ ap (hex_digits m)
        (div-div-eq-div-mul x 16 (16 ^ n) ∙ ap (λ (d : ℕ). x / d) (sym (pow-succ' 16 n))))

-- the whole text is at most 36 characters long, so nothing is cut off
abbrev body : Uuid → ℕ → List ℕ
body trade_id attempt = take 16 (hex_digits 32 trade_id) ++ ((b'-' ∷ b'a' ∷ []) ++ decimal attempt)

high_digits : (x : ℕ) → take 16 (hex_digits 32 x) ≡ hex_digits 16 (x / 16 ^ 16)
high_digits x = take-hex_digits 16 16 x

client_order_id-body :
    (trade_id : Uuid) (attempt : ℕ)
    → attempt < 10 ^ 14
    → client_order_id trade_id attempt ≡ (b's' ∷ b's' ∷ b't' ∷ b'-' ∷ []) ++ body trade_id attempt
unfolding client_order_id decimal
client_order_id-body trade_id attempt h =
    take-all 36 _ (omega (arith, length-decimal_from 13 attempt attempt h))

-- the text after "sst-"
abbrev shown : Uuid → ℕ → List ℕ
shown t a = hex_digits 16 (t / 16 ^ 16) ++ (b'-' ∷ b'a' ∷ decimal a)

shown-eq :
    (t t' : Uuid) (a a' : ℕ)
    → a < 10 ^ 14
    → a' < 10 ^ 14
    → client_order_id t a ≡ client_order_id t' a'
    → shown t a ≡ shown t' a'
unfolding drop
shown-eq t t' a a' h h' e =
    let whole = sym (client_order_id-body t a h) ∙ e ∙ client_order_id-body t' a' h' in
    let bodies : body t a ≡ body t' a' = ap (drop 4) whole in
    rw (high_digits t, high_digits t') at bodies

prefix-eq :
    (n : ℕ) (xs ys us vs : List ℕ)
    → length xs ≡ n
    → length ys ≡ n
    → xs ++ us ≡ ys ++ vs
    → (xs ≡ ys) × (us ≡ vs)
prefix-eq n xs ys us vs h k e = (
  sym (take-append n xs us (omega arith) ∙ take-all n xs (omega arith))
      ∙ ap (take n) e
      ∙ (take-append n ys vs (omega arith) ∙ take-all n ys (omega arith)),
  sym (drop-append n xs us h) ∙ ap (drop n) e ∙ drop-append n ys vs k,
)

hex_digits-eq : (n x y : ℕ) → x < 16 ^ n → y < 16 ^ n → hex_digits n x ≡ hex_digits n y → x ≡ y
hex_digits-eq n x y h k e =
    sym (read-hex_digits n x h) ∙ ap (read_from 16 hex_value 0) e ∙ read-hex_digits n y k

decimal-eq : (x y : ℕ) → decimal x ≡ decimal y → x ≡ y
unfolding decimal
decimal-eq x y e =
    sym (read-decimal_from x x (omega arith))
    ∙ ap (read_from 10 decimal_digit 0) e
    ∙ read-decimal_from y y (omega arith)

-- All that an id shows can be read back.
client_order_id_unique :
    (t t' : Uuid) (a a' : ℕ)
    → t < 2 ^ 128
    → t' < 2 ^ 128
    → a < 10 ^ 14
    → a' < 10 ^ 14
    → client_order_id t a ≡ client_order_id t' a'
    → (a ≡ a') × (t / 2 ^ 64 ≡ t' / 2 ^ 64)
unfolding drop
client_order_id_unique t t' a a' ht ht' ha ha' e =
    let (high, low) =
      prefix-eq 16 _ _ _ _ (length-hex_digits 16 (t / 16 ^ 16))
        (length-hex_digits 16 (t' / 16 ^ 16)) (shown-eq t t' a a' ha ha' e) in
    (
      decimal-eq a a' (ap (drop 2) low),
      hex_digits-eq 16 (t / 16 ^ 16) (t' / 16 ^ 16) (omega arith) (omega arith) high,
    )

-- The id shows nothing else.
client_order_id_shared :
    (t t' : Uuid) (a : ℕ) → t / 2 ^ 64 ≡ t' / 2 ^ 64 → client_order_id t a ≡ client_order_id t' a
unfolding client_order_id
client_order_id_shared t t' a h =
    ap
      (λ (ds : List ℕ).
        take 36 ((b's' ∷ b's' ∷ b't' ∷ b'-' ∷ []) ++ (ds ++ ((b'-' ∷ b'a' ∷ []) ++ decimal a))))
      (high_digits t ∙ ap (hex_digits 16) h ∙ sym (high_digits t'))

-- For attempts below 10 ^ 14, two client order ids are equal exactly when the attempts are equal and
-- the trade ids (of 128 bits) agree in their upper 64 bits, which are all of a trade id that is
-- shown.
pub client_order_id_iff :
    (t t' : Uuid) (a a' : ℕ)
    → t < 2 ^ 128
    → t' < 2 ^ 128
    → a < 10 ^ 14
    → a' < 10 ^ 14
    → (client_order_id t a ≡ client_order_id t' a') ↔ ((a ≡ a') × (t / 2 ^ 64 ≡ t' / 2 ^ 64))
client_order_id_iff t t' a a' ht ht' ha ha' = (
  client_order_id_unique t t' a a' ht ht' ha ha',
  λ (same, upper). rw (← same) (client_order_id_shared t t' a upper),
)
