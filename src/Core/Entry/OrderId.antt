-- ===== src/Core/Entry/OrderId.antt =====
-- `_deterministic_client_order_id`: the text "sst-" hex "-a" attempt, as code points.
pub mod Uniqueness
use safe_signal_trader_v.Prelude.{
  ℕ, zero, suc, ◌+◌, ◌-◌, ◌*◌, ◌/◌, ◌%◌, ◌^◌, ◌≤◌, ◌<◌, true, false, ◌≡◌, refl, List, [], ◌∷◌, ◌++◌,
  ltb, if◌then◌else◌, arith, length,
}
use safe_signal_trader_v.Domain.Models.{Uuid}

-- `s[:n]`
unfoldable pub take {ℓ} : {A : Type ℓ} → ℕ → List A → List A
take zero xs = []
take (suc n) [] = []
take (suc n) (x ∷ xs) = x ∷ take n xs

-- the lower-case hexadecimal digit of a number below 16
unfoldable pub hex_digit : ℕ → ℕ
hex_digit d = if ltb d 10 then b'0' + d else b'a' + (d - 10)

-- the last `n` hexadecimal digits of a number, most significant first
unfoldable pub hex_digits : ℕ → ℕ → List ℕ
unfolding hex_digit
hex_digits zero x = []
hex_digits (suc n) x = hex_digits n (x / 16) ++ (hex_digit (x % 16) ∷ [])

-- `str(n)`; the fuel `n` is enough, since every step divides by ten
unfoldable pub decimal_from : ℕ → ℕ → List ℕ
decimal_from zero n = (b'0' + n % 10) ∷ []
decimal_from (suc f) n = elim (ltb n 10) [
  | true ↦ (b'0' + n) ∷ []
  | false ↦ decimal_from f (n / 10) ++ ((b'0' + n % 10) ∷ [])
]

unfoldable pub decimal : ℕ → List ℕ
unfolding decimal_from
decimal n = decimal_from n n

-- `raw[:36]` of f"sst-{trade_id.hex[:16]}-a{attempt}"; a UUID is its 128-bit number, of 32 digits
unfoldable pub client_order_id : Uuid → ℕ → List ℕ
unfolding take hex_digits decimal
client_order_id trade_id attempt = take 36 (
    (b's' ∷ b's' ∷ b't' ∷ b'-' ∷ [])
    ++ (take 16 (hex_digits 32 trade_id) ++ ((b'-' ∷ b'a' ∷ []) ++ decimal attempt)))
