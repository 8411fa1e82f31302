-- ===== src/Events/Cursor.antt =====
-- `encode_cursor` and `decode_cursor` of app/services/event_store.py, over code points.
use native.Mathlib.Nat.{pow-suc}
use test_gpt_local.Prelude.{
  ℕ, zero, suc, ◌≤◌, ◌<◌, ◌+◌, ◌-◌, ◌*◌, ◌/◌, ◌%◌, ◌^◌, ◌≡◌, refl, inl, inr, Bool, true, ◌&&◌, ◌||◌,
  List, [], ◌∷◌, ◌++◌, arith, ltb, leb, if◌then◌else◌, length, length-append, drop, Bool-cases,
  ltb→lt, lt→ltb,
}
use test_gpt_local.Prelude.Int.{ℤ, pos, negsuc}
use test_gpt_local.Prelude.Text.{codes, is_prefix}
use test_gpt_local.Prelude.Result.{Result, ok, err}

pub data CursorError : Type 0 where
  negative_event_id invalid_cursor : CursorError

abbrev pub Code : Type 0
Code = List ℕ

-- The digit of a number below 16, as `format` writes it in base 16.
hex_digit : ℕ → ℕ
hex_digit d = if ltb d 10 then d + 48 else d + 87

is_hex : ℕ → Bool
is_hex c = leb 48 c && leb c 57 || leb 97 c && leb c 102

digit_value : ℕ → ℕ
digit_value c = if leb c 57 then c - 48 else c - 87

-- `f"{n:x}"`, on fuel.
hex : ℕ → ℕ → Code
unfolding hex_digit
hex zero n = []
hex (suc fuel) n =
    let longer = hex fuel (n / 16) ++ hex_digit (n % 16) ∷ [] in
    if ltb n 16 then hex_digit n ∷ [] else longer

-- `int(digits, 16)`, from the value of the digits before
value_from : ℕ → Code → ℕ
unfolding digit_value
value_from n [] = n
value_from n (c ∷ cs) = value_from (n * 16 + digit_value c) cs

unfoldable pub all_hex : Code → Bool
unfolding is_hex
all_hex [] = true
all_hex (c ∷ cs) = is_hex c && all_hex cs

abbrev prefix : Code
prefix = codes "evt1_"

unfoldable pub encode_cursor : ℕ → Code
unfolding hex
encode_cursor event_id = prefix ++ hex (suc event_id) event_id

-- The check for a negative id; the store's own ids are natural numbers.
unfoldable pub encode_cursor_int : ℤ → Result CursorError Code
unfolding encode_cursor
encode_cursor_int (negsuc n) = err negative_event_id
encode_cursor_int (pos n) = ok (encode_cursor n)

-- `_CURSOR_RE.fullmatch`: the prefix, and one to sixteen digits.
matches : Code → Bool
unfolding is_prefix all_hex
matches cursor =
    let digits = drop 5 cursor in
    is_prefix prefix cursor && leb 1 (length digits) && leb (length digits) 16 && all_hex digits

unfoldable pub decode_cursor : Code → Result CursorError ℕ
unfolding matches value_from
decode_cursor cursor =
    if matches cursor then ok (value_from 0 (drop 5 cursor)) else err invalid_cursor

value_from-append :
    (n : ℕ) (cs : Code) (c : ℕ) → value_from n (cs ++ c ∷ []) ≡ value_from n cs * 16 + digit_value c
unfolding value_from
value_from-append n [] c = refl
value_from-append n (d ∷ cs) c = value_from-append (n * 16 + digit_value d) cs c

digit_value-hex_digit : (d : ℕ) → d < 16 → digit_value (hex_digit d) ≡ d
unfolding digit_value hex_digit
digit_value-hex_digit d h = ground arith

is_hex-hex_digit : (d : ℕ) → d < 16 → is_hex (hex_digit d) ≡ true
unfolding is_hex hex_digit
is_hex-hex_digit d h = ground arith

-- With fuel above the number, the digits have its value.
value_from-hex : (fuel n : ℕ) → n < fuel → value_from 0 (hex fuel n) ≡ n
unfolding hex
value_from-hex zero n h = absurd (omega arith)
value_from-hex (suc fuel) n h = elim (Bool-cases (ltb n 16)) [
  | inl b ↦ rw b (unfold value_from in omega (arith, digit_value-hex_digit n (ltb→lt n 16 b)))
  | inr b ↦ rw b (
      rw value_from-append (
        omega (
          arith,
          value_from-hex fuel (n / 16) (ground arith),
          digit_value-hex_digit (n % 16) (omega arith),
        )))
]

all_hex-append :
    (cs : Code) (c : ℕ) → all_hex cs ≡ true → is_hex c ≡ true → all_hex (cs ++ c ∷ []) ≡ true
unfolding all_hex
all_hex-append [] c h k = ground arith
all_hex-append (d ∷ cs) c h k = ground (arith, all_hex-append cs c)

all_hex-hex : (fuel n : ℕ) → all_hex (hex fuel n) ≡ true
unfolding hex
all_hex-hex zero n = unfold all_hex in refl
all_hex-hex (suc fuel) n = elim (Bool-cases (ltb n 16)) [
  | inl b ↦ rw b (unfold all_hex in rw (is_hex-hex_digit n (ltb→lt n 16 b)))
  | inr b ↦ rw b (
      all_hex-append (hex fuel (n / 16)) _ (all_hex-hex fuel (n / 16))
        (is_hex-hex_digit (n % 16) (omega arith)))
]

hex-pos : (fuel n : ℕ) → n < fuel → 1 ≤ length (hex fuel n)
unfolding hex
hex-pos zero n h = absurd (omega arith)
hex-pos (suc fuel) n h = elim (Bool-cases (ltb n 16)) [
  | inl b ↦ rw b (omega arith)
  | inr b ↦ rw b (rw length-append (omega arith))
]

-- A number below 16 ^ k has at most k digits.
length-hex : (k fuel n : ℕ) → 1 ≤ k → n < 16 ^ k → length (hex fuel n) ≤ k
unfolding hex
length-hex k zero n p h = omega arith
length-hex zero (suc fuel) n p h = absurd (omega arith)
length-hex (suc zero) (suc fuel) n p h = rw (lt→ltb n 16 h) (omega arith)
length-hex (suc (suc k)) (suc fuel) n p h = elim (Bool-cases (ltb n 16)) [
  | inl b ↦ rw b (omega arith)
  | inr b ↦
      let h' = rw pow-suc at h in
      rw b (
        rw length-append
          (omega (arith, length-hex (suc k) fuel (n / 16) (omega arith) (omega arith))))
]

-- An event id below 16 ^ 16 is read back from its cursor.
pub decode_cursor-encode_cursor : (n : ℕ) → n < 16 ^ 16 → decode_cursor (encode_cursor n) ≡ ok n
unfolding decode_cursor encode_cursor
decode_cursor-encode_cursor n h =
    let d = hex (suc n) n in
    ground (
      arith,
      hex-pos (suc n) n (omega arith),
      length-hex 16 (suc n) n (omega arith) h,
      all_hex-hex (suc n) n,
      value_from-hex (suc n) n (omega arith),
    )
